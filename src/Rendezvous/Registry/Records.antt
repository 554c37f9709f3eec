-- ===== src/Rendezvous/Registry/Records.antt =====
-- What the records of crates/ra-rendezvous/src/lib.rs satisfy, and what writing one record keeps.
use remote_access.Base.{
  ℕ, ◌≤◌, ◌≡◌, refl, ◌∙◌, subst, true, false, some, [], ◌∷◌, Text, Map, arith, get, insert,
  get-insert, is_empty, text_eq, text_eq_sound, length, len, bytes, IsString, ok, inl, inr,
  Bool-cases,
}
use remote_access.Proto.External.{Crypto, Rng}
use remote_access.Proto.Types.{RegisterRequest}
use remote_access.Proto.Hashes.{ct_eq-bytes, token_fingerprint, token_fingerprint-IsString}
use remote_access.Proto.Ids.{is_valid_id}
use remote_access.Rendezvous.State.{HostRecord, Store}
use remote_access.Rendezvous.Register.{check_request, choose_id, host_record}
use remote_access.Rendezvous.Registry.FreeId.{choose_id-valid, choose_id-owner}

-- What a record under an ID satisfies.
pub record IsRegistered (id : Text) (h : HostRecord) : Type 0 where
  pub own_id : h.id ≡ id
  pub valid_id : is_valid_id id ≡ true
  pub named : (1 ≤ length h.name) × (len h.name ≤ 64)
  pub few_endpoints : length h.endpoints ≤ 16
  pub fp_string : IsString h.token_fp

abbrev pub AllRegistered : Map HostRecord → Type 0
AllRegistered m = (id : Text) (h : HostRecord) → get id m ≡ some h → IsRegistered id h

-- Every ID of the first map is in the second, with a token of the same fingerprint.
abbrev pub SameOwners : Map HostRecord → Map HostRecord → Type 0
SameOwners m n =
    (id : Text) (h : HostRecord)
    → get id m ≡ some h
    → (h' : HostRecord) × (get id n ≡ some h') × (bytes h.token_fp ≡ bytes h'.token_fp)

-- A record refreshed by its owner.
pub record Refreshed (h h' : HostRecord) : Type 0 where
  pub same_id : h'.id ≡ h.id
  pub same_fp : h'.token_fp ≡ h.token_fp
  pub same_name : h'.name ≡ h.name
  pub bounded : length h.endpoints ≤ 16 → length h'.endpoints ≤ 16

name_there : (n : Text) → is_empty n ≡ false → 1 ≤ length n
name_there [] h = cc
name_there (c ∷ cs) h = omega arith

check_request-named :
    (req : RegisterRequest)
    → check_request req ≡ ok tt
    → (1 ≤ length req.name) × (len req.name ≤ 64) × (length req.endpoints ≤ 16)
unfolding check_request
check_request-named req e = (name_there req.name (ground arith), ground arith, ground arith)

module _ (c : Crypto) (fuel : ℕ) (rng : Rng) (now unix : ℕ) (req : RegisterRequest) (s : Store)
    (id : Text) (checked : check_request req ≡ ok tt)
    (chosen : choose_id fuel rng req (token_fingerprint c req.token) s ≡ ok id) where
  abbrev new_record : HostRecord
  new_record = host_record req id (token_fingerprint c req.token) now unix

  pub registered-SameOwners : SameOwners s.hosts (insert id new_record s.hosts)
  registered-SameOwners j h found = elim (Bool-cases (text_eq id j)) [
    | inl hit ↦ (
      new_record,
      ground (arith, get-insert id j new_record s.hosts),
      (ct_eq-bytes h.token_fp (token_fingerprint c req.token)).0 (
          choose_id-owner fuel rng req (token_fingerprint c req.token) s id h chosen
            (rw (text_eq_sound id j hit) found)),
    )
    | inr miss ↦ (h, ground (arith, get-insert id j new_record s.hosts), refl)
  ]

  new_record-IsRegistered : IsRegistered id new_record
  new_record-IsRegistered =
      let (there, short, few) = check_request-named req checked in
      record {
        own_id = refl;
        valid_id = choose_id-valid fuel rng req (token_fingerprint c req.token) s id chosen;
        named = (there, short);
        few_endpoints = few;
        fp_string = token_fingerprint-IsString c req.token;
      }

  pub registered-AllRegistered :
      AllRegistered s.hosts → AllRegistered (insert id new_record s.hosts)
  registered-AllRegistered all j h found = elim (Bool-cases (text_eq id j)) [
    | inl hit ↦
        let same : new_record ≡ h = ground (arith, get-insert id j new_record s.hosts) in
        subst (λ k. IsRegistered k h) (text_eq_sound id j hit)
          (subst (IsRegistered id) same new_record-IsRegistered)
    | inr miss ↦ all j h (ground (arith, get-insert id j new_record s.hosts))
  ]

module _ (m : Map HostRecord) (id : Text) (h h' : HostRecord) (found : get id m ≡ some h)
    (new : Refreshed h h') where
  pub refreshed-SameOwners : SameOwners m (insert id h' m)
  refreshed-SameOwners j k there = elim (Bool-cases (text_eq id j)) [
    | inl hit ↦ (h', ground (arith, get-insert id j h' m), cc (text_eq_sound id j hit, new.same_fp))
    | inr miss ↦ (k, ground (arith, get-insert id j h' m), refl)
  ]

  refreshed-IsRegistered : IsRegistered id h → IsRegistered id h'
  refreshed-IsRegistered r = record {
    own_id = new.same_id ∙ r.own_id;
    valid_id = r.valid_id;
    named = rw new.same_name r.named;
    few_endpoints = new.bounded r.few_endpoints;
    fp_string = rw new.same_fp r.fp_string;
  }

  pub refreshed-AllRegistered : AllRegistered m → AllRegistered (insert id h' m)
  refreshed-AllRegistered all j k there = elim (Bool-cases (text_eq id j)) [
    | inl hit ↦
        let same : h' ≡ k = ground (arith, get-insert id j h' m) in
        subst (λ i. IsRegistered i k) (text_eq_sound id j hit)
          (subst (IsRegistered id) same (refreshed-IsRegistered (all id h found)))
    | inr miss ↦ all j k (ground (arith, get-insert id j h' m))
  ]
