-- ===== src/Rendezvous/Registry/FreeId.antt =====
-- The IDs that `register` of crates/ra-rendezvous/src/lib.rs gives out.
use remote_access.Base.{
  ℕ, zero, suc, ◌+◌, ◌<◌, ◌≡◌, refl, true, false, some, Text, arith, get, contains_key, ok, inl,
  inr, Bool-cases,
}
use remote_access.Proto.External.{Rng}
use remote_access.Proto.Types.{RegisterRequest}
use remote_access.Proto.Hashes.{ct_eq}
use remote_access.Proto.Ids.{is_valid_id, random_id, random_id-valid}
use remote_access.Rendezvous.State.{HostRecord, Store}
use remote_access.Rendezvous.Register.{choose_id, free_id}

-- Where the generator stands after `n` draws of an ID, each of which makes nine of it
abbrev pub draw : ℕ → ℕ → ℕ
draw i zero = i
draw i (suc n) = draw (i + 9) n

-- The draw `n` is the first that is free: it is a valid ID that no host has, and every earlier one is
-- some host's.
pub record IsFirstFree (rng : Rng) (i n : ℕ) (s : Store) : Type 0 where
  pub free : contains_key (random_id rng (draw i n)) s.hosts ≡ false
  pub valid : is_valid_id (random_id rng (draw i n)) ≡ true
  pub taken : (m : ℕ) → m < n → contains_key (random_id rng (draw i m)) s.hosts ≡ true

first_here :
    (rng : Rng) (i : ℕ) (s : Store)
    → contains_key (random_id rng i) s.hosts ≡ false
    → IsFirstFree rng i 0 s
first_here rng i s now = record {
  free = now;
  valid = random_id-valid rng i;
  taken = λ m h. absurd (omega arith);
}

taken_later :
    (rng : Rng) (i n : ℕ) (s : Store)
    → contains_key (random_id rng i) s.hosts ≡ true
    → IsFirstFree rng (i + 9) n s
    → (m : ℕ) → m < suc n
    → contains_key (random_id rng (draw i m)) s.hosts ≡ true
taken_later rng i n s now f zero h = now
taken_later rng i n s now f (suc m) h = f.taken m (omega arith)

first_later :
    (rng : Rng) (i n : ℕ) (s : Store)
    → contains_key (random_id rng i) s.hosts ≡ true
    → IsFirstFree rng (i + 9) n s
    → IsFirstFree rng i (suc n) s
first_later rng i n s now f = record {
  free = f.free;
  valid = f.valid;
  taken = taken_later rng i n s now f;
}

free_id_at :
    (k fuel : ℕ) (rng : Rng) (i : ℕ) (s : Store)
    → k < fuel
    → contains_key (random_id rng (draw i k)) s.hosts ≡ false
    → (n : ℕ) × (free_id fuel rng i s ≡ some (random_id rng (draw i n))) × IsFirstFree rng i n s
unfolding free_id
free_id_at k zero rng i s h free = absurd (omega arith)
free_id_at zero (suc fuel) rng i s h free = (0, rw (free_id, free) refl, first_here rng i s free)
free_id_at (suc k) (suc fuel) rng i s h free =
    elim (Bool-cases (contains_key (random_id rng i) s.hosts)) [
      | inr now ↦ (0, rw (free_id, now) refl, first_here rng i s now)
      | inl taken ↦
          let (n, e, f) = free_id_at k fuel rng (i + 9) s (omega arith) free in
          (suc n, rw (free_id, taken) e, first_later rng i n s taken f)
    ]

-- The search for a free ID ends if one of the draws within the fuel is free. It then finds a valid ID
-- that no host has, namely the first free one of the draws.
pub free_id-first :
    (k fuel : ℕ) (rng : Rng) (s : Store)
    → k < fuel
    → contains_key (random_id rng (draw 0 k)) s.hosts ≡ false
    → (n : ℕ) × (free_id fuel rng 0 s ≡ some (random_id rng (draw 0 n))) × IsFirstFree rng 0 n s
free_id-first k fuel rng s h free = free_id_at k fuel rng 0 s h free

free_id-free :
    (fuel : ℕ) (rng : Rng) (i : ℕ) (s : Store) (id : Text)
    → free_id fuel rng i s ≡ some id
    → (contains_key id s.hosts ≡ false) × (is_valid_id id ≡ true)
unfolding free_id
free_id-free zero rng i s id h = cc
free_id-free (suc fuel) rng i s id h =
    ground (arith, free_id-free fuel rng (i + 9) s id, random_id-valid rng i)

pub choose_id-valid :
    (fuel : ℕ) (rng : Rng) (req : RegisterRequest) (fp : Text) (s : Store) (id : Text)
    → choose_id fuel rng req fp s ≡ ok id
    → is_valid_id id ≡ true
unfolding choose_id
choose_id-valid fuel rng req fp s id h = ground (arith, free_id-free fuel rng 0 s id)

pub choose_id-owner :
    (fuel : ℕ) (rng : Rng) (req : RegisterRequest) (fp : Text) (s : Store) (id : Text)
    (h : HostRecord)
    → choose_id fuel rng req fp s ≡ ok id
    → get id s.hosts ≡ some h
    → ct_eq h.token_fp fp ≡ true
unfolding choose_id
choose_id-owner fuel rng req fp s id h e found = ground (arith, free_id-free fuel rng 0 s id)
