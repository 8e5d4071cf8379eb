-- ===== src/Commits/Call.antt =====
-- What the callbacks of `RevList` do to a walk.
use dgit.Prelude.{
  ℕ, ◌+◌, ◌≡◌, ◌⊎◌, inl, inr, refl, subst, Bool, true, false, ◌&&◌, ◌||◌, List, [], ◌∷◌, ◌++◌,
  Bytes, bytes_eq, bytes_eq_iff, Bool-cases, Option, none, some, arith, ltb,
}
use dgit.Commits.{has}
use dgit.Commits.Ancestors.{has-append}
use dgit.Commits.RevList.{
  Walk, Callback, build_exclude_list, count_and_report, Walked, running, max_count_error, failed,
  unfinished, exclude, report, call,
}

-- Whether the callback adds to the values.
unfoldable pub reports : Callback → Bool
reports build_exclude_list = false
reports (count_and_report max) = true

-- No commit stands twice.
abbrev pub IsDistinct : List Bytes → Type 0
IsDistinct [] = Unit {0}
IsDistinct (x ∷ xs) = (has x xs ≡ false) × IsDistinct xs

pub running_inj : {v w : Walk} → running v ≡ running w → v ≡ w
running_inj e = cc

pub Walked-cases :
    (r : Walked)
    → ((w : Walk) × (r ≡ running w))
      ⊎ (((w : Walk) × (r ≡ max_count_error w)) ⊎ ((r ≡ failed) ⊎ (r ≡ unfinished)))
Walked-cases (running w) = inl (w, refl)
Walked-cases (max_count_error w) = inr (inl (w, refl))
Walked-cases failed = inr (inr (inl refl))
Walked-cases unfinished = inr (inr (inr refl))

IsDistinct-append :
    (x : Bytes) (xs : List Bytes) → IsDistinct xs → has x xs ≡ false → IsDistinct (xs ++ (x ∷ []))
unfolding has
IsDistinct-append x [] d h = (refl, tt)
IsDistinct-append x (y ∷ ys) (n, d) h = (
  ground (arith, has-append y ys (x ∷ []), bytes_eq_iff x y, bytes_eq_iff y x),
  IsDistinct-append x ys d (ground (arith, h)),
)

-- The walk after the callback and after `excludeList[cmt] = struct{}{}`.
pub record Called (cb : Callback) (x : Bytes) (w v : Walk) : Type 0 where
  pub excluded : (k : Bytes) → has k v.excluded ≡ (bytes_eq x k || has k w.excluded)
  pub vals : (k : Bytes) → has k v.vals ≡ (has k w.vals || (reports cb && bytes_eq x k))
  pub distinct : has x w.vals ≡ false → IsDistinct w.vals → IsDistinct v.vals

report-Called :
    (max : Option ℕ) (x : Bytes) (w : Walk)
    → Called (count_and_report max) x w (exclude x (report x w))
unfolding exclude report has reports
report-Called max x w = record {
  excluded = λ k. refl;
  vals = λ k. ground (arith, has-append k w.vals (x ∷ []));
  distinct = λ f d. IsDistinct-append x w.vals d f;
}

pub call-Called :
    (cb : Callback) (x : Bytes) (w w1 : Walk)
    → call cb x w ≡ running w1
    → Called cb x w (exclude x w1)
unfolding call exclude has reports
call-Called build_exclude_list x w w1 e = elim (Bool-cases (has x w.excluded)) [
  | inl y ↦
      subst (λ (v : Walk). Called build_exclude_list x w (exclude x v))
        (running_inj (rw (y, call) at e))
        (record { excluded = λ k. refl; vals = λ k. ground arith; distinct = λ f d. d })
  | inr n ↦
      subst (λ (v : Walk). Called build_exclude_list x w (exclude x v))
        (running_inj (rw (n, call) at e))
        (record { excluded = λ k. ground arith; vals = λ k. ground arith; distinct = λ f d. d })
]
call-Called (count_and_report none) x w w1 e =
    subst (λ (v : Walk). Called (count_and_report none) x w (exclude x v)) (running_inj e)
      (report-Called none x w)
call-Called (count_and_report (some max)) x w w1 e =
    elim (Bool-cases (ltb max (w.callback_count + 1))) [
      | inl y ↦ cc (rw (y, call) at e)
      | inr n ↦
          subst (λ (v : Walk). Called (count_and_report (some max)) x w (exclude x v))
            (running_inj (rw (n, call) at e)) (report-Called (some max) x w)
    ]
