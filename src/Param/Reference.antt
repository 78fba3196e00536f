-- ===== src/Param/Reference.antt =====
-- A structure as the flat list of its numbers and texts: what reading it comes down to.
use any_node.Base.{
  ℕ, ◌≡◌, refl, sym, ◌∙◌, ap, arith, Bool, true, false, if◌then◌else◌, Option, none, some, List, [],
  ◌∷◌, ◌++◌,
}
use any_node.Base.Int.{ℤ, pos, negsuc}
use any_node.Param.Defs.{in_turn, into, get_param, get_uint32}

-- A part of `S`.
pub record Lens {ℓ κ} (S : Type ℓ) (A : Type κ) : Type (ℓ ⊔ κ) where
  pub get : S → A
  pub set : S → A → S
  pub set-get : (s : S) → set s (get s) ≡ s
  pub get-set : (s : S) (a : A) → get (set s a) ≡ a
  pub set-set : (s : S) (a b : A) → set (set s a) b ≡ set s b

-- What the server's answer for one key does to a structure; none if there is no answer.
abbrev pub Leaf {ℓ} : Type ℓ → Type ℓ
Leaf S = Option (S → S)

-- The structure after its leaves up to the first that is missing, and whether none is.
unfoldable pub fill {ℓ} : {S : Type ℓ} → List (Leaf S) → S → S
fill [] s = s
fill (none ∷ ls) s = s
fill (some f ∷ ls) s = fill ls (f s)

unfoldable pub complete {ℓ} : {S : Type ℓ} → List (Leaf S) → Bool
complete [] = true
complete (none ∷ ls) = false
complete (some f ∷ ls) = complete ls

abbrev pub Reads {ℓ} : {S : Type ℓ} → (S → S × Bool) → List (Leaf S) → Type ℓ
Reads {S = S} f ls = (s : S) → f s ≡ (fill ls s, complete ls)

-- A part that is read, with its leaves.
pub record Part {ℓ} (S : Type ℓ) : Type ℓ where
  pub reader : S → S × Bool
  pub leaves : List (Leaf S)
  pub reads : Reads reader leaves

module _ {ℓ} {S : Type ℓ} where
  pub leaf {κ} : {A : Type κ} → Lens S A → Option A → Leaf S
  leaf l none = none
  leaf l (some a) = some (λ s. l.set s a)

  pub under {κ} : {A : Type κ} → Lens S A → List (Leaf A) → List (Leaf S)
  under l [] = []
  under l (none ∷ ls) = none ∷ under l ls
  under l (some f ∷ ls) = some (λ s. l.set s (f (l.get s))) ∷ under l ls

  Reads-nil : Reads {S = S} (in_turn []) []
  unfolding fill complete
  Reads-nil s = refl

  both :
      (ls ms : List (Leaf S)) (s : S)
      → ◌≡◌ {A = S × Bool}
          (if complete ls then (fill ms (fill ls s), complete ms) else (fill ls s, false))
          (fill (ls ++ ms) s, complete (ls ++ ms))
  unfolding fill complete
  both [] ms s = refl
  both (none ∷ ls) ms s = refl
  both (some f ∷ ls) ms s = both ls ms (f s)

  Reads-cons :
      (f : S → S × Bool) (fs : List (S → S × Bool)) (ls ms : List (Leaf S))
      → Reads f ls
      → Reads (in_turn fs) ms
      → Reads (in_turn (f ∷ fs)) (ls ++ ms)
  Reads-cons f fs ls ms h k s = rw (h s, k (fill ls s)) (both ls ms s)

  abbrev pub readers : List (Part S) → List (S → S × Bool)
  readers [] = []
  readers (p ∷ ps) = p.reader ∷ readers ps

  abbrev pub all_leaves : List (Part S) → List (Leaf S)
  all_leaves [] = []
  all_leaves (p ∷ ps) = p.leaves ++ all_leaves ps

  pub Reads-in_turn : (ps : List (Part S)) → Reads (in_turn (readers ps)) (all_leaves ps)
  Reads-in_turn [] = Reads-nil
  Reads-in_turn (p ∷ ps) =
      Reads-cons p.reader (readers ps) p.leaves (all_leaves ps) p.reads (Reads-in_turn ps)

  module _ {κ} {A : Type κ} (l : Lens S A) where
    fill-under : (ls : List (Leaf A)) (s : S) → l.set s (fill ls (l.get s)) ≡ fill (under l ls) s
    unfolding fill under
    fill-under [] s = l.set-get s
    fill-under (none ∷ ls) s = l.set-get s
    fill-under (some f ∷ ls) s =
        let t = l.set s (f (l.get s)) in
        sym (l.set-set s (f (l.get s)) _)
        ∙ ap (λ a. l.set t (fill ls a)) (sym (l.get-set s (f (l.get s))))
        ∙ fill-under ls t

    complete-under : (ls : List (Leaf A)) → complete ls ≡ complete (under l ls)
    unfolding complete under
    complete-under [] = refl
    complete-under (none ∷ ls) = refl
    complete-under (some f ∷ ls) = complete-under ls

    pub Reads-under :
        (f : A → A × Bool) (ls : List (Leaf A))
        → Reads f ls
        → Reads (λ s. into (l.set s) (f (l.get s))) (under l ls)
    Reads-under f ls h s =
        ap (into (l.set s)) (h (l.get s)) ∙ λ i. (fill-under ls s i, complete-under ls i)

    pub Reads-param :
        (answer : Option A)
        → Reads (λ s. into (l.set s) (get_param answer (l.get s))) (leaf l answer ∷ [])
    unfolding fill complete leaf
    Reads-param none s = ap (λ x. (x, false)) (l.set-get s)
    Reads-param (some a) s = refl

    -- A part that is a structure itself, and one that is a primitive value.
    abbrev pub structure : (f : A → A × Bool) (ls : List (Leaf A)) → Reads f ls → Part S
    structure f ls h = record {
      reader = λ s. into (l.set s) (f (l.get s));
      leaves = under l ls;
      reads = Reads-under f ls h;
    }

    abbrev pub value : Option A → Part S
    value answer = record {
      reader = λ s. into (l.set s) (get_param answer (l.get s));
      leaves = leaf l answer ∷ [];
      reads = Reads-param answer;
    }

-- An answer that is a natural number.
abbrev pub natural : Option ℤ → Option ℕ
natural none = none
natural (some (pos n)) = some n
natural (some (negsuc n)) = none

get_uint32-natural :
    (answer : Option ℤ) (n : ℕ) → get_uint32 answer n ≡ get_param (natural answer) n
unfolding get_uint32
get_uint32-natural none n = ground arith
get_uint32-natural (some (pos m)) n = refl
get_uint32-natural (some (negsuc m)) n = refl

pub Reads-uint32 {ℓ} :
    {S : Type ℓ} (l : Lens S ℕ) (answer : Option ℤ)
    → Reads (λ s. into (l.set s) (get_uint32 answer (l.get s))) (leaf l (natural answer) ∷ [])
Reads-uint32 l answer s =
    ap (into (l.set s)) (get_uint32-natural answer (l.get s)) ∙ Reads-param l (natural answer) s

abbrev pub uint32 {ℓ} : {S : Type ℓ} → Lens S ℕ → Option ℤ → Part S
uint32 l answer = record {
  reader = λ s. into (l.set s) (get_uint32 answer (l.get s));
  leaves = leaf l (natural answer) ∷ [];
  reads = Reads-uint32 l answer;
}
