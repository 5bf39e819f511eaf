-- ===== src/Mirror/Parts.antt =====
-- The moves of a resolution: what they keep of its parts, and when they leave them non-empty.
use orcastork.Base.{
  Bool-cases, Option, [], arith, false, inl, inr, is_empty, ltb, none, not, refl, some, ℕ, ◌&&◌,
  ◌||◌, ◌∙◌, ◌∷◌, ◌≡◌,
}
use orcastork.Base.Dict.{Dict, IsDistinct, get, put, put-IsDistinct}
use orcastork.DataPoint.{DataPoint, Key, key_eq, identity_key, reobserved, identity_key-reobserved}
use orcastork.Store.{Entry}
use orcastork.Store.Merge.{landed, is_news, IsKeyed, put-IsKeyed, get-IsKeyed}
use orcastork.Mirror.Resolve.{
  point_of, Fits, Move, to_added, to_updated, to_none, choose, after_added, after_updated,
}

abbrev pub IsKeyedPoint : Key → Option DataPoint → Type 0
IsKeyedPoint k none = Unit
IsKeyedPoint k (some d) = identity_key d ≡ k

pub IsKeyedPoint-get :
    (k : Key) (items : Dict Key DataPoint) (o : Option DataPoint)
    → get k items ≡ o
    → IsKeyed items
    → IsKeyedPoint k o
IsKeyedPoint-get k items none e h = tt
IsKeyedPoint-get k items (some d) e h = get-IsKeyed k d items h e

-- What moves into a part keeps the identity of the point presented.
pub choose-IsKeyed :
    (d : DataPoint) (a u o : Option DataPoint)
    → IsKeyedPoint (identity_key d) a
    → IsKeyedPoint (identity_key d) u
    → IsKeyedPoint (identity_key d) o
    → IsKeyedPoint (identity_key d) (after_added (choose d a u o) some none)
      × IsKeyedPoint (identity_key d) (after_updated (choose d a u o) some none)
choose-IsKeyed d (some a) u o ha hu ho = (identity_key-reobserved d.last_retrieved a ∙ ha, tt)
choose-IsKeyed d none (some u) o ha hu ho = (tt, identity_key-reobserved d.last_retrieved u ∙ hu)
choose-IsKeyed d none none none ha hu ho = (refl, tt)
choose-IsKeyed d none none (some o) ha hu ho =
    elim (Bool-cases (ltb o.last_retrieved d.last_retrieved)) [
      | inl new ↦ rw new (tt, identity_key-reobserved d.last_retrieved o ∙ ho)
      | inr old ↦ rw old (tt, tt)
    ]

pub after_added-IsKeyed :
    (m : Move) (k : Key) (items : Dict Key DataPoint)
    → IsKeyedPoint k (after_added m some none)
    → IsKeyed items
    → IsKeyed (after_added m (λ p. put k p items) items)
after_added-IsKeyed (to_added p) k items e h = put-IsKeyed k p items e h
after_added-IsKeyed (to_updated p) k items e h = h
after_added-IsKeyed to_none k items e h = h

pub after_updated-IsKeyed :
    (m : Move) (k : Key) (items : Dict Key DataPoint)
    → IsKeyedPoint k (after_updated m some none)
    → IsKeyed items
    → IsKeyed (after_updated m (λ p. put k p items) items)
after_updated-IsKeyed (to_added p) k items e h = h
after_updated-IsKeyed (to_updated p) k items e h = put-IsKeyed k p items e h
after_updated-IsKeyed to_none k items e h = h

pub after_added-IsDistinct :
    (m : Move) (k : Key) (items : Dict Key DataPoint)
    → IsDistinct items
    → IsDistinct (after_added m (λ p. put k p items) items)
after_added-IsDistinct (to_added p) k items h = put-IsDistinct k p items h
after_added-IsDistinct _ k items h = h

pub after_updated-IsDistinct :
    (m : Move) (k : Key) (items : Dict Key DataPoint)
    → IsDistinct items
    → IsDistinct (after_updated m (λ p. put k p items) items)
after_updated-IsDistinct (to_updated p) k items h = put-IsDistinct k p items h
after_updated-IsDistinct _ k items h = h

pub is_empty-put :
    (k : Key) (d : DataPoint) (items : Dict Key DataPoint) → is_empty (put k d items) ≡ false
unfolding is_empty put
is_empty-put k d [] = refl
is_empty-put k d ((j, c) ∷ items) = ground arith

pub not-empty_of_get :
    (k : Key) (d : DataPoint) (items : Dict Key DataPoint)
    → get k items ≡ some d
    → is_empty items ≡ false
unfolding is_empty get
not-empty_of_get k d [] e = cc
not-empty_of_get k d (p ∷ items) e = refl

-- A move makes the parts non-empty exactly when the point is news or they were so before.
pub nothing-choose :
    (rev : ℕ) (k : Key) (d : DataPoint) (old : Option Entry) (xs ys : Dict Key DataPoint)
    (a u : Option DataPoint)
    → get k xs ≡ a
    → get k ys ≡ u
    → Fits old a u
    → not (
        is_empty (after_added (choose d a u (point_of old)) (λ p. put k p xs) xs)
        && is_empty (after_updated (choose d a u (point_of old)) (λ p. put k p ys) ys))
      ≡ (not (is_empty xs && is_empty ys) || is_news d (landed rev a u old))
nothing-choose rev k d none xs ys none none p q h = ground (arith, is_empty-put k d xs)
nothing-choose rev k d none xs ys a (some u) p q h = absurd h
nothing-choose rev k d none xs ys (some a) none p q h =
    ground (arith, is_empty-put k (reobserved d.last_retrieved a) xs, not-empty_of_get k a xs p)
nothing-choose rev k d (some e) xs ys none none p q h =
    ground (arith, is_empty-put k (reobserved d.last_retrieved e.data_point) ys)
nothing-choose rev k d (some e) xs ys none (some u) p q h =
    ground (arith, is_empty-put k (reobserved d.last_retrieved u) ys, not-empty_of_get k u ys q)
nothing-choose rev k d (some e) xs ys (some a) u p q h = absurd h
