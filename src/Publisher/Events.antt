-- ===== src/Publisher/Events.antt =====
-- What a sequence of events says of the messages.
use any_node.Base.{◌≡◌, refl, ap, List, [], ◌∷◌, ◌++◌}
use any_node.Publisher.Defs.{Event, accepted, discarded, taken, published, grabbed}

module _ {ℓ} {M : Type ℓ} where
  -- The messages that are given to `publish`, that leave the buffer, that the thread takes from it to be
  -- published, and that it publishes.
  unfoldable pub accepted_in : List (Event M) → List M
  accepted_in [] = []
  accepted_in (accepted m ∷ es) = m ∷ accepted_in es
  accepted_in (_ ∷ es) = accepted_in es

  unfoldable pub left_in : List (Event M) → List M
  left_in [] = []
  left_in (discarded m ∷ es) = m ∷ left_in es
  left_in (taken m ∷ es) = m ∷ left_in es
  left_in (grabbed m ∷ es) = m ∷ left_in es
  left_in (_ ∷ es) = left_in es

  unfoldable pub taken_in : List (Event M) → List M
  taken_in [] = []
  taken_in (taken m ∷ es) = m ∷ taken_in es
  taken_in (_ ∷ es) = taken_in es

  unfoldable pub published_in : List (Event M) → List M
  published_in [] = []
  published_in (published m ∷ es) = m ∷ published_in es
  published_in (_ ∷ es) = published_in es

  pub accepted_in-append :
      (es fs : List (Event M)) → accepted_in (es ++ fs) ≡ accepted_in es ++ accepted_in fs
  unfolding accepted_in
  accepted_in-append [] fs = refl
  accepted_in-append (accepted m ∷ es) fs = ap (◌∷◌ m) (accepted_in-append es fs)
  accepted_in-append (_ ∷ es) fs = accepted_in-append es fs

  pub left_in-append : (es fs : List (Event M)) → left_in (es ++ fs) ≡ left_in es ++ left_in fs
  unfolding left_in
  left_in-append [] fs = refl
  left_in-append (discarded m ∷ es) fs = ap (◌∷◌ m) (left_in-append es fs)
  left_in-append (taken m ∷ es) fs = ap (◌∷◌ m) (left_in-append es fs)
  left_in-append (grabbed m ∷ es) fs = ap (◌∷◌ m) (left_in-append es fs)
  left_in-append (_ ∷ es) fs = left_in-append es fs

  pub taken_in-append : (es fs : List (Event M)) → taken_in (es ++ fs) ≡ taken_in es ++ taken_in fs
  unfolding taken_in
  taken_in-append [] fs = refl
  taken_in-append (taken m ∷ es) fs = ap (◌∷◌ m) (taken_in-append es fs)
  taken_in-append (_ ∷ es) fs = taken_in-append es fs

  pub published_in-append :
      (es fs : List (Event M)) → published_in (es ++ fs) ≡ published_in es ++ published_in fs
  unfolding published_in
  published_in-append [] fs = refl
  published_in-append (published m ∷ es) fs = ap (◌∷◌ m) (published_in-append es fs)
  published_in-append (_ ∷ es) fs = published_in-append es fs
