-- ===== src/Queue.antt =====
-- tools/queue.c: a table of pointers that the threads of the reader share. Each operation runs
-- between `pthread_mutex_lock` and `pthread_mutex_unlock`, so it is one step here.
pub mod Spec
pub mod Holds
pub mod Add
pub mod Get
pub mod Refine
pub mod Keeps
pub mod Moves
mod Tests
use smart_fridge.Prelude.{
  ℕ, zero, suc, ◌+◌, ◌-◌, ◌%◌, List, Option, none, ltb, ◌==◌, if◌then◌else◌, get_or, set, replicate,
  is_some, not,
}
use smart_fridge.Prelude.Int.{ℤ, pos, pos_part, ltb_ℤ}

abbrev pub min_queue_size : ℕ
min_queue_size = 5

abbrev pub max_queue_size : ℕ
max_queue_size = 200

-- `struct queue`. A slot is `none` where the source holds NULL.
pub record Queue {ℓ} (A : Type ℓ) : Type ℓ where
  pub data_queue : List (Option A)
  pub size : ℕ
  pub current : ℕ
  pub write_p : ℕ

module _ {ℓ} {A : Type ℓ} where
  -- A refused size leaves the queue as it is.
  pub sf_queue_set : Queue A → ℤ → ℕ × Queue A
  sf_queue_set q size =
      if ltb_ℤ size (pos min_queue_size)
      then (1, q)
      else if ltb_ℤ (pos max_queue_size) size
      then (2, q)
      else let n = pos_part size in
        (0, record { data_queue = replicate n none; size = n; current = 0; write_p = 0 })

  -- The loop of `sf_queue_add` from its counter `i` on, with the rounds that are left.
  pub add_from : ℕ → ℕ → Queue A → Option A → ℕ × Queue A
  add_from zero i q value = (1, q)
  add_from (suc n) i q value =
      let rest = add_from n (i + 1) q value in
      let p = (q.write_p + i) % q.size in
      if not (is_some (get_or q.data_queue p none))
      then (
        0,
        record q {
          data_queue = set q.data_queue p value;
          write_p = (q.write_p + i + 1) % q.size;
          current = q.current + 1;
        },
      )
      else rest

  -- `value` is a pointer; `none` is NULL.
  pub sf_queue_add : Queue A → Option A → ℕ × Queue A
  unfolding add_from
  sf_queue_add q value = if ltb q.current q.size then add_from q.size 0 q value else (1, q)

  -- The loop of `sf_queue_get`. `write_p - i + size` is not negative, since `i < size`.
  pub get_from : ℕ → ℕ → Queue A → Option A × Queue A
  get_from zero i q = (none, q)
  get_from (suc n) i q =
      let rest = get_from n (i + 1) q in
      let p = (q.write_p + q.size - i) % q.size in
      let value = get_or q.data_queue p none in
      if is_some value
      then (
        value,
        record q { data_queue = set q.data_queue p none; write_p = p; current = q.current - 1 },
      )
      else rest

  pub sf_queue_get : Queue A → Option A × Queue A
  unfolding get_from
  sf_queue_get q = if not (q.current == 0) then get_from q.size 0 q else (none, q)
