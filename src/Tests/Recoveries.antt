-- ===== src/Tests/Recoveries.antt =====
-- Runs of the account recovery workflow with sample ports.
use insta.Prelude.{Bool, Option, String, ◌≡◌, refl, true, false, some, none, List, [], ◌∷◌}
use insta.Recovery.State.{Payload, LoginResult, State, Call, relogin, Ports, make_initial_state}
use insta.Recovery.Nodes.{attempt_recovery_node, interrupted, returned}
use insta.Recovery.Graph.{start, resume_all}
use insta.Recovery.Graph.Safety.{EndsWell, session-EndsWell, login_repeats}

abbrev healthy_after : List Call → Bool
healthy_after [] = false
healthy_after (c ∷ []) = false
healthy_after calls = true

abbrev asks_code : Option String → LoginResult
asks_code none = record { success = false; requires_2fa = true }
asks_code (some code) = record { success = true; requires_2fa = false }

abbrev sample : Ports
sample = record {
  read_error_state =
      λ calls id. some (record { has_error = true; proxy = none; login_state = "challenge" });
  classify_issue = λ e. some "challenge";
  verify_account_health = λ calls id. some (healthy_after calls);
  relogin_account = λ calls id code. some (asks_code code);
  swap_proxy = λ calls id proxy. some true;
  get_available_proxy = λ calls id. some (some "proxy");
}

abbrev approve : Payload
approve = record { decision = "approve_proxy_swap"; two_fa_code = none; proxy = none }

abbrev provide : Payload
provide = record { decision = "provide_2fa"; two_fa_code = some "123"; proxy = none }

session-EndsWell_example :
    EndsWell 1 3 (resume_all sample (approve ∷ provide ∷ []) (start sample "a1" "shop" 3))
session-EndsWell_example = session-EndsWell sample "a1" "shop" 3 (approve ∷ provide ∷ [])

abbrev asked : State
unfolding make_initial_state
asked = record (make_initial_state "a1" "shop" 3) { recovery_path = some "relogin" }

login_repeats_example :
    (s' : State) × (attempt_recovery_node sample none asked [] ≡ interrupted (relogin none ∷ []))
    × (attempt_recovery_node sample (some provide) asked (relogin none ∷ [])
        ≡ returned s' (relogin none ∷ relogin none ∷ []))
    × (s'.operator_payload ≡ some provide)
unfolding asked
login_repeats_example =
    login_repeats sample asked [] provide (asks_code none) (asks_code none) refl refl refl refl refl
      refl
