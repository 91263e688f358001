-- ===== src/Gitea/Paging.antt =====
-- The loop over pages of apps/worker/src/gitea/client.ts reads a list of up to ten pages in full.
use code_host.Prelude.{
  ℕ, zero, suc, ◌+◌, ◌*◌, ◌≤◌, List, [], ◌++◌, length, take, drop, ltb, true, ◌≡◌, ◌⊎◌, inl, inr,
  sym, subst, ◌∙◌, ap, arith, Bool-cases, take-add, take-short, take-all,
}
use code_host.Prelude.Result.{Result, ok, err}
use code_host.Database.Effects.{Fault}
use code_host.Gitea.{Remote, collect_pages}

module _ {A : Type 0} {G : Type 0} where
  -- A list is served in pages of fifty, and to read it changes nothing, though a request may fail.
  pub record IsPaged (page : ℕ → Remote G (List A)) (g : G) (values : List A) : Type 0 where
    pub reads : (n : ℕ) → (page n g).1 ≡ g
    pub answers :
        (n : ℕ)
        → ((page (suc n) g).0 ≡ ok (take 50 (drop (50 * n) values)))
          ⊎ ((e : Fault) × ((page (suc n) g).0 ≡ err e))

  -- How a reading of `values` may end.
  pub data IsRead (values : List A) (g : G) : Result Fault (List A) × G → Type 0 where
    is_read : IsRead values g (ok values, g)
    is_lost : (e : Fault) → IsRead values g (err e, g)

  module _ (page : ℕ → Remote G (List A)) (g : G) (values : List A)
      (paged : IsPaged page g values) where
    abbrev items_at : ℕ → List A
    items_at k = take 50 (drop (50 * k) values)

    grown : (k : ℕ) → take (50 * k) values ++ items_at k ≡ take (50 * suc k) values
    grown k =
        let size : 50 * k + 50 ≡ 50 * suc k = omega arith in
        take-add (50 * k) 50 values ∙ ap (λ n. take n values) size

    complete :
        (k n : ℕ)
        → ltb (length (items_at k)) 50 ≡ true
        → take (50 * k) values ++ items_at k ≡ take (50 * (k + suc n)) values
    complete k n short =
        let size : 50 * k + (50 + 50 * n) ≡ 50 * (k + suc n) = omega arith in
        take-add (50 * k) 50 values
        ∙ sym (take-short (50 * k) 50 (50 * n) values (ground arith))
        ∙ ap (λ m. take m values) size

    collect_pages-from :
        (n k : ℕ)
        → IsRead
            (take (50 * (k + n)) values)
            g
            (collect_pages page n (suc k) (take (50 * k) values) g)
    unfolding collect_pages
    collect_pages-from zero k =
        let same : k ≡ k + 0 = omega arith in
        subst (λ m. IsRead (take (50 * m) values) g (ok (take (50 * k) values), g)) same is_read
    collect_pages-from (suc n) k =
        let counted : suc k + n ≡ k + suc n = omega arith in
        let rest = rw counted at (collect_pages-from n (suc k)) in
        elim (paged.answers k) [
          | inr (e, lost) ↦ rw (lost, paged.reads (suc k)) (is_lost e)
          | inl answer ↦
              rw (answer, paged.reads (suc k))
                (elim (Bool-cases (ltb (length (items_at k)) 50)) [
                  | inl short ↦ rw short (
                      subst (λ vs. IsRead vs g (ok (take (50 * k) values ++ items_at k), g))
                        (complete k n short) is_read)
                  | inr full ↦ rw full (rw (grown k) rest)
                ])
        ]

    -- All of a list of at most five hundred is read, or an error is answered, and Gitea is left as it is.
    pub collect_pages-all : length values ≤ 500 → IsRead values g (collect_pages page 10 1 [] g)
    collect_pages-all short =
        subst (λ vs. IsRead vs g (collect_pages page 10 1 [] g)) (take-all 500 values short)
          (collect_pages-from 10 0)
