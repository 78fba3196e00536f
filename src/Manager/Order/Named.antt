-- ===== src/Manager/Order/Named.antt =====
-- Calls on one name, over another order of the same entries.
use any_node.Base.{◌≡◌, refl, sym, subst, Option, none, some, List, []}
use any_node.Base.Dict.{find, put, erase, string_eq, find-put, find-erase}
use any_node.Double.{Double}
use any_node.Worker.{Worker, Effect, Outcome, returned}
use any_node.Manager.Defs.{Manager, Result, at_worker, stored}
use any_node.Manager.Calls.Entries.{>>=-returned, returned-fst}
use any_node.Manager.Order.{SameEntries}
use Prim.Native.String.{String}

module _ {D : Type 0} ⦃d : Double D⦄ where
  -- What returned for one order returns for the other, with the same entries.
  abbrev pub Agrees : Result D → Result D → Type 0
  Agrees a b =
      (q : Manager D) (es : List (Effect D))
      → a ≡ returned (q, es)
      → (r : Manager D) × (fs : List (Effect D)) × (b ≡ returned (r, fs)) × SameEntries q r

  pub put-SameEntries :
      (name : String) (w : Worker D) (m n : Manager D)
      → SameEntries m n
      → SameEntries (put name w m) (put name w n)
  put-SameEntries name w m n s j = simp (find-put, s j)

  pub erase-SameEntries :
      (name : String) (m n : Manager D)
      → SameEntries m n
      → SameEntries (erase name m) (erase name n)
  erase-SameEntries name m n s j = simp (find-erase, s j)

  -- A call on one name.
  pub at_worker-Agrees :
      (m n : Manager D) (name : String) (f g : Worker D → Result D)
      → SameEntries m n
      → ((w : Worker D) → Agrees (f w) (g w))
      → Agrees (at_worker m name f) (at_worker n name g)
  at_worker-Agrees m n name f g s h q es e = go (find name m) refl (sym (s name))
    where
      go :
          (o : Option (Worker D))
          → find name m ≡ o
          → find name n ≡ o
          → (r : Manager D) × (fs : List (Effect D)) × (at_worker n name g ≡ returned (r, fs))
            × SameEntries q r
      go none x y = (n, [], rw y, subst (λ k. SameEntries k n) (returned-fst (rw x at e)) s)
      go (some w) x y = let (r, fs, k, t) = h w q es (rw x at e) in (r, fs, rw y k, t)

  pub stored-Agrees :
      (m n : Manager D) (name : String) (out : Outcome (Worker D × List (Effect D)))
      → SameEntries m n
      → Agrees (stored m name out) (stored n name out)
  stored-Agrees m n name out s q es e =
      let (r, g, h) = >>=-returned out _ e in
      (
        put name r.0 n,
        r.1,
        rw g,
        subst (λ k. SameEntries k (put name r.0 n)) (returned-fst h)
            (put-SameEntries name r.0 m n s),
      )

  pub one-Agrees :
      (m n : Manager D) (name : String) (f : Worker D → Outcome (Worker D × List (Effect D)))
      → SameEntries m n
      → Agrees
          (at_worker m name λ w. stored m name (f w))
          (at_worker n name λ w. stored n name (f w))
  one-Agrees m n name f s =
      at_worker-Agrees m n name (λ w. stored m name (f w)) (λ w. stored n name (f w)) s
        (λ w. stored-Agrees m n name (f w) s)
