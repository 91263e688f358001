-- ===== src/Database/Counting.antt =====
-- How an update or an insert changes the number of rows of a kind, and that the triggers of
-- packages/db/drizzle/0005_run_capacity_triggers.sql keep the capacity.
use code_host.Prelude.{
  suc, ◌+◌, ◌≤◌, Bool, true, ◌≡◌, ◌⊎◌, inl, inr, refl, arith, String, List, [], ◌∷◌, ◌++◌, none,
  some, count, update, count-append, count-update, Bool-cases, if◌then◌else◌, leb, ap, eq_iff,
  find?, str_eq,
}
use code_host.RunStatus.{RunStatus, queued, same_status, holds_execution_lock}
use code_host.Database.Tables.{RunRow}
use code_host.Database.Capacity.{is_active, is_queued, admit, update_status}

module _ {ℓ} {A : Type ℓ} where
  pub count-le :
      (p q : A → Bool)
      → ((a : A) → p a ≡ true → q a ≡ true)
      → (xs : List A) → count p xs ≤ count q xs
  count-le p q sub [] = omega arith
  count-le p q sub (x ∷ xs) = ground (arith, sub x, count-le p q sub xs)

  -- An update that makes no new row of the kind.
  pub count-update_le :
      (q p : A → Bool) (f : A → A)
      → ((a : A) → p a ≡ true → q (f a) ≡ true → q a ≡ true)
      → (xs : List A) → count q (update p f xs) ≤ count q xs
  count-update_le q p f old [] = omega arith
  count-update_le q p f old (x ∷ xs) = ground (arith, old x, count-update_le q p f old xs)

  -- Any update makes at most as many as it touches.
  pub count-update_add :
      (q p : A → Bool) (f : A → A) (xs : List A) → count q (update p f xs) ≤ count q xs + count p xs
  count-update_add q p f [] = omega arith
  count-update_add q p f (x ∷ xs) = ground (arith, count-update_add q p f xs)

-- No two runs have one id.
abbrev pub HasUniqueIds : List RunRow → Type 0
HasUniqueIds runs = (id : String) → count (λ r. str_eq r.id id) runs ≤ 1

-- The bounds on the runs that are active and that wait.
pub record IsWithinCapacity (runs : List RunRow) : Type 0 where
  pub unique : HasUniqueIds runs
  pub active : count is_active runs ≤ 1
  pub waiting : count is_queued runs ≤ 3

-- What `admit` lets become active or queued.
pub admit-active :
    (runs : List RunRow) (old new : RunStatus)
    → holds_execution_lock (admit runs (some old) new) ≡ true
    → (holds_execution_lock old ≡ true) ⊎ (count is_active runs ≡ 0)
unfolding admit
admit-active runs old new h = ground arith

pub admit-queued :
    (runs : List RunRow) (old new : RunStatus)
    → same_status (admit runs (some old) new) queued ≡ true
    → (same_status old queued ≡ true) ⊎ (suc (count is_queued runs) ≤ 3)
unfolding admit
admit-queued runs old new h = ground arith

module _ (p : RunRow → Bool) (to : RunStatus) (f : RunRow → RunRow) (runs : List RunRow)
    (one : count p runs ≤ 1) where
  abbrev written : RunRow → RunRow
  written r = record (f r) { status = admit runs (some r.status) to }

  update_status-active : count is_active runs ≤ 1 → count is_active (update_status p to f runs) ≤ 1
  unfolding update_status
  update_status-active h = elim (Bool-cases (leb 1 (count is_active runs))) [
    | inl some_active ↦ omega (
      arith,
      count-update_le is_active p written
          (λ a pa new. ground (arith, admit-active runs a.status to)) runs,
    )
    | inr none_active ↦ ground (arith, count-update_add is_active p written runs)
  ]

  update_status-waiting : count is_queued runs ≤ 3 → count is_queued (update_status p to f runs) ≤ 3
  unfolding update_status
  update_status-waiting h = elim (Bool-cases (leb 3 (count is_queued runs))) [
    | inl full ↦ omega (
      arith,
      count-update_le is_queued p written
          (λ a pa new. ground (arith, admit-queued runs a.status to)) runs,
    )
    | inr room ↦ ground (arith, count-update_add is_queued p written runs)
  ]

  -- A write of a status to one run keeps the capacity, whatever the status.
  pub update_status-IsWithinCapacity :
      ((r : RunRow) → (f r).id ≡ r.id)
      → IsWithinCapacity runs
      → IsWithinCapacity (update_status p to f runs)
  unfolding update_status
  update_status-IsWithinCapacity keeps_id c = record {
    unique = λ id. omega (
      arith,
      c.unique id,
      count-update (λ r. str_eq r.id id) p written (λ a pa. ap (λ i. str_eq i id) (keeps_id a))
          runs,
    );
    active = update_status-active c.active;
    waiting = update_status-waiting c.waiting;
  }

-- A write that leaves the ids and the statuses alone keeps the capacity.
pub update-IsWithinCapacity :
    (p : RunRow → Bool) (f : RunRow → RunRow) (runs : List RunRow)
    → ((r : RunRow) → ((f r).id ≡ r.id) × ((f r).status ≡ r.status))
    → IsWithinCapacity runs
    → IsWithinCapacity (update p f runs)
update-IsWithinCapacity p f runs keeps c = record {
  unique = λ id. omega (
    arith,
    c.unique id,
    count-update (λ r. str_eq r.id id) p f (λ a pa. ap (λ i. str_eq i id) (keeps a).0) runs,
  );
  active =
      omega
        (arith, c, count-update is_active p f (λ a pa. ap holds_execution_lock (keeps a).1) runs);
  waiting = omega (
    arith,
    c,
    count-update is_queued p f (λ a pa. ap (λ s. same_status s queued) (keeps a).1) runs,
  );
}

admit_new-active :
    (runs : List RunRow) (new : RunStatus)
    → holds_execution_lock (admit runs none new) ≡ true
    → count is_active runs ≡ 0
unfolding admit
admit_new-active runs new h = ground arith

admit_new-queued :
    (runs : List RunRow) (new : RunStatus)
    → same_status (admit runs none new) queued ≡ true
    → suc (count is_queued runs) ≤ 3
unfolding admit
admit_new-queued runs new h = ground arith

insert_unique :
    (runs : List RunRow) (r : RunRow)
    → count (λ s. str_eq s.id r.id) runs ≡ 0
    → HasUniqueIds runs
    → HasUniqueIds (runs ++ r ∷ [])
insert_unique runs r fresh unique id = elim (Bool-cases (str_eq r.id id)) [
  | inl same ↦
      let e : r.id ≡ id = (eq_iff r.id id).0 same in
      let none_yet : count (λ s. str_eq s.id id) runs ≡ 0 = rw (← e) fresh in
      ground (arith, count-append (λ s. str_eq s.id id) runs (r ∷ []))
  | inr other ↦ ground (arith, unique id, count-append (λ s. str_eq s.id id) runs (r ∷ []))
]

-- A new run with a fresh id, admitted by the triggers, keeps the capacity.
pub insert-IsWithinCapacity :
    (runs : List RunRow) (r : RunRow) (new : RunStatus)
    → count (λ s. str_eq s.id r.id) runs ≡ 0
    → IsWithinCapacity runs
    → IsWithinCapacity (runs ++ record r { status = admit runs none new } ∷ [])
insert-IsWithinCapacity runs r new fresh c =
    let row : RunRow = record r { status = admit runs none new } in
    record {
      unique = insert_unique runs row fresh c.unique;
      active =
          ground
            (arith, c.active, count-append is_active runs (row ∷ []), admit_new-active runs new);
      waiting =
          ground
            (arith, c.waiting, count-append is_queued runs (row ∷ []), admit_new-queued runs new);
    }

module _ {ℓ} {A : Type ℓ} (p q : A → Bool) (sub : (a : A) → q a ≡ true → p a ≡ true) where
  -- The only row that a key has decides how many rows of a kind it has.
  pub count_of_unique :
      (xs : List A) {a : A}
      → find? p xs ≡ some a
      → count p xs ≤ 1
      → count q xs ≡ (if q a then 1 else 0)
  count_of_unique [] {a} found one = ground arith
  count_of_unique (x ∷ xs) {a} found one =
      ground (arith, sub x, count_of_unique xs {a = a}, count-le q p sub xs)

pub update-none {ℓ} :
    {A : Type ℓ} (p : A → Bool) (f : A → A) (xs : List A) → count p xs ≡ 0 → update p f xs ≡ xs
update-none p f [] h = refl
update-none p f (x ∷ xs) h = ground (arith, update-none p f xs)

module _ {ℓ} {A : Type ℓ} (p q : A → Bool) (sub : (a : A) → q a ≡ true → p a ≡ true)
    (f : A → A) where
  -- An update that reaches the only row that a key has replaces that row, and no other.
  pub update-only :
      (xs : List A) {a : A}
      → find? p xs ≡ some a
      → count p xs ≤ 1
      → q a ≡ true
      → update q f xs ≡ update p (λ _. f a) xs
  update-only [] {a} found one reached = ground arith
  update-only (x ∷ xs) {a} found one reached = elim (Bool-cases (p x)) [
    | inl here ↦
        let same : x ≡ a = ground arith in
        let no_more : count p xs ≡ 0 = ground arith in
        ground (
          arith,
          update-none q f xs (omega (arith, no_more, count-le q p sub xs)),
          update-none p (λ _. f a) xs no_more,
        )
    | inr other ↦ ground (arith, sub x, update-only xs {a = a})
  ]
