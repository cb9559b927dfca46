-- ===== src/Tests/Interleaving.antt =====
-- Handlers of the two servers with one user that run at the same time.
use passkey_auth_rs.Prelude.{refl, some, [], ◌∷◌, replicate}
use passkey_auth_rs.DemoServer.{AppState}
use passkey_auth_rs.DemoServer.Reachable.{IsOwned, booted}
use passkey_auth_rs.RocketServer.Sections.{Thread, register_start_user, resume}
use passkey_auth_rs.RocketServer.Interleaved.{
  Runs, at_boot, starts_registration, goes_on, Runs-IsOwned,
}
use passkey_auth_rs.Tests.Demo.{libs, world}
use passkey_auth_rs.Tests.Registering.{wa}

-- Two first registrations; the one that came later goes on first.
one_in : AppState × Thread
one_in = register_start_user libs world (some "a1") "" (replicate 16 5) (booted wa)

two_in : AppState × Thread
two_in = register_start_user libs world (some "b2") "" (replicate 16 6) one_in.0

both_on : Runs libs (resume libs one_in.1 (resume libs two_in.1 two_in.0)) []
unfolding one_in two_in
both_on = goes_on _ [] [] one_in.1 (
    goes_on _ [] (one_in.1 ∷ []) two_in.1 (
      starts_registration world one_in.0 (one_in.1 ∷ []) (some "b2") "" (replicate 16 6) refl (
        starts_registration world (booted wa) [] (some "a1") "" (replicate 16 5) refl
          (at_boot wa))))

Runs-IsOwned_example : IsOwned (resume libs one_in.1 (resume libs two_in.1 two_in.0))
Runs-IsOwned_example = Runs-IsOwned libs both_on
