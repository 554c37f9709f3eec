-- ===== src/Examples/Ownership.antt =====
-- The abstract registry at a concrete history.
use remote_access.Base.{map}
use remote_access.Rendezvous.State.{empty_store}
use remote_access.Rendezvous.System.{run, token_of}
use remote_access.Rendezvous.Registry.Ownership.{Accepts, claimant, owners_of, run-Accepts}
use remote_access.Examples.Crypto.{copy_crypto}
use remote_access.Examples.Rendezvous.{history}

run-Accepts_example :
    Accepts
      (map (λ e. claimant copy_crypto (token_of e)) history)
      (owners_of empty_store.hosts)
      (owners_of (run copy_crypto history empty_store).hosts)
run-Accepts_example = run-Accepts copy_crypto history empty_store
