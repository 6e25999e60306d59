-- ===== src/FindX/Fifo/Queue.antt =====
-- A bounded queue that refuses when it is full, by the traces that it allows.
use xdas.Prelude.{
  ℕ, String, List, [], ◌∷◌, ◌++◌, Option, none, some, length, ltb, if◌then◌else◌, ◌==◌, string_eq,
  str_eq→eq, ◌≡◌, arith, Bool-cases, Option-cases, sym, ◌∙◌, inl, inr,
}
use mathlib.Core.List.{append_assoc, append-nil}

pub data Label : Type 0 where
  silent : Label
  accepts drops takes : String → Label

abbrev pub take_from : List String → String → Option (List String)
take_from [] id = none
take_from (first ∷ rest) id = if first == id then some rest else none

-- One action of the queue, which accepts exactly when it is not full, and gives the oldest entry.
abbrev pub act : ℕ → List String → Label → Option (List String)
act cap q silent = some q
act cap q (accepts id) = if ltb (length q) cap then some (q ++ id ∷ []) else none
act cap q (drops id) = if ltb (length q) cap then none else some q
act cap q (takes id) = take_from q id

-- The contents after a trace, if the queue allows it.
unfoldable pub replay : ℕ → List String → List Label → Option (List String)
replay cap q [] = some q
replay cap q (l ∷ ls) = elim (act cap q l) [ none ↦ none | some q' ↦ replay cap q' ls ]

abbrev pub accepted : List Label → List String
accepted [] = []
accepted (accepts id ∷ ls) = id ∷ accepted ls
accepted (silent ∷ ls) = accepted ls
accepted (drops id ∷ ls) = accepted ls
accepted (takes id ∷ ls) = accepted ls

abbrev pub taken : List Label → List String
taken [] = []
taken (takes id ∷ ls) = id ∷ taken ls
taken (silent ∷ ls) = taken ls
taken (drops id ∷ ls) = taken ls
taken (accepts id ∷ ls) = taken ls

take_from-some : (q q' : List String) (id : String) → take_from q id ≡ some q' → q ≡ id ∷ q'
take_from-some [] q' id e = cc
take_from-some (x ∷ q) q' id e = elim (Bool-cases (x == id)) [
  | inl same ↦
      let rest : ◌≡◌ {A = Option (List String)} (some q) (some q') = rw same at e in
      cc (str_eq→eq x id same, rest)
  | inr differ ↦ absurd (missed (rw differ at e))
]
  where
    missed : ◌≡◌ {A = Option (List String)} none (some q') → ⊥
    missed m = cc

act-accepts :
    (cap : ℕ) (q q1 : List String) (id : String)
    → act cap q (accepts id) ≡ some q1
    → q1 ≡ q ++ id ∷ []
act-accepts cap q q1 id e = ground arith

act-drops : (cap : ℕ) (q q1 : List String) (id : String) → act cap q (drops id) ≡ some q1 → q1 ≡ q
act-drops cap q q1 id e = ground arith

pub replay-step :
    (cap : ℕ) (q q1 q' : List String) (l : Label) (ls : List Label)
    → act cap q l ≡ some q1
    → replay cap q1 ls ≡ some q'
    → replay cap q (l ∷ ls) ≡ some q'
unfolding replay
replay-step cap q q1 q' l ls moved rest = rw (moved, replay) rest

act-cases :
    (cap : ℕ) (q q' : List String) (l : Label) (ls : List Label)
    → replay cap q (l ∷ ls) ≡ some q'
    → (q1 : List String) × (act cap q l ≡ some q1) × (replay cap q1 ls ≡ some q')
unfolding replay
act-cases cap q q' l ls e = elim (Option-cases (act cap q l)) [
  | inl refused ↦ absurd (none≢some q' (rw (refused, replay) at e))
  | inr (q1, allowed) ↦ (q1, allowed, rw (allowed, replay) at e)
]
  where
    none≢some : (x : List String) → none ≡ some x → ⊥
    none≢some x m = cc

-- In a trace that the queue allows, the entries come out in the order in which they were accepted,
-- each once, and what is left is what was accepted last.
pub replay-order :
    (cap : ℕ) (q q' : List String) (ls : List Label)
    → replay cap q ls ≡ some q'
    → q ++ accepted ls ≡ taken ls ++ q'
unfolding replay
replay-order cap q q' [] e = append-nil q ∙ (cc)
replay-order cap q q' (silent ∷ ls) e = replay-order cap q q' ls e
replay-order cap q q' (accepts id ∷ ls) e =
    let (q1, allowed, rest) = act-cases cap q q' (accepts id) ls e in
    let ih = replay-order cap q1 q' ls rest in
    let added = act-accepts cap q q1 id allowed in
    sym (append_assoc q (id ∷ []) (accepted ls)) ∙ (cc)
replay-order cap q q' (drops id ∷ ls) e =
    let (q1, allowed, rest) = act-cases cap q q' (drops id) ls e in
    let ih = replay-order cap q1 q' ls rest in let same = act-drops cap q q1 id allowed in cc
replay-order cap q q' (takes id ∷ ls) e =
    let (q1, allowed, rest) = act-cases cap q q' (takes id) ls e in
    let ih = replay-order cap q1 q' ls rest in let top = take_from-some q q1 id allowed in cc
