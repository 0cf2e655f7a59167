-- ===== src/Llm/Tests.antt =====
-- Runs of the models of agentkit/llm.py, and its theorems at concrete inputs.
use agent_bakery.Prelude.{
  ℕ, ◌≤◌, ◌≡◌, ◌↔◌, refl, true, false, Option, none, some, List, [], ◌∷◌, arith, ◌⊎◌,
}
use agent_bakery.Prelude.Exec.{raised}
use agent_bakery.Llm.Breaker.{closed, check, with_status, record_failure, record_success}
use agent_bakery.Llm.Breaker.Trips.{
  Report, success, failure, silent, after, trailing, last_failure, Tracks, after-Tracks, IsCooling,
  check-after,
}
use agent_bakery.Llm.Cost.{
  Message, no_usage, default_prices, estimate_cost, estimate_max_cost, estimate_prompt_tokens, add,
}
use agent_bakery.Llm.Client.{
  Config, Gateway, Response, Client, answered, failed, cost_limit_preflight, cost_limit_actual,
  no_choices, call_gateway, complete, complete_with_tools, guarded_call, note, metered,
}
use agent_bakery.Llm.Client.Calls.{Metered, request_of}
use agent_bakery.Llm.Client.Budget.{
  complete-Metered, over_ceiling_unmetered, preflight_refuses, run_job, IsWithinBudget,
  run_job-IsWithinBudget,
}
use agent_bakery.Llm.CompleteJson.{complete_json}
use agent_bakery.Prelude.Text.{codes}
use agent_bakery.Llm.JsonText.{json_substring}
use agent_bakery.Llm.JsonText.Pieces.{IsPiece, IsBraced, json_substring-IsPiece}
use agent_bakery.Llm.CompleteJson.Retries.{Retried, complete_json-Retried}

abbrev history : List Report
history = failure 70 ∷ silent ∷ failure 40 ∷ success ∷ failure 10 ∷ []

after-Tracks_example : Tracks (after (closed 2 30) history) 2 30 history
after-Tracks_example = after-Tracks 2 30 history (omega arith)

check-after_example :
    (check (after (closed 2 30) history) 99 ≡ false)
    ↔ ((2 ≤ trailing history) × IsCooling (last_failure history) 30 99)
check-after_example = check-after 2 30 99 history (omega arith)

refused_then_admitted :
    (check (after (closed 2 30) history) 99 ≡ false)
    × (check (after (closed 2 30) history) 100 ≡ true)
unfolding check after closed record_success record_failure
refused_then_admitted = (refl, refl)

abbrev config : Config
config = record {
  model = "deepseek-chat";
  max_tokens = 2048;
  max_cost = 10000000;
  job_cost_cap = 500000;
  allow_unpriced = false;
  prices = default_prices;
}

abbrev fresh : Client
fresh = record {
  usage = no_usage;
  breaker = record { threshold = 2; cooldown = 30; failures = 0; opened_at = none };
  sent = 0;
  clock = 0;
}

abbrev prompt : List Message
prompt = record { role = "user"; content = some "is it up?" } ∷ []

abbrev answer : ℕ → ℕ → Response
answer p c = record {
  usage = some (p, c);
  choices = record { content = some "yes"; tool_calls = []; finish_reason = some "stop" } ∷ [];
}

-- Answers every request, after one unit of time.
abbrev steady : Gateway
steady n request = (1, answered (answer 10 20))

abbrev broken : Gateway
broken n request = (1, failed (with_status 503))

abbrev refusing : Gateway
refusing n request = (1, failed (with_status 422))

abbrev verbose : Gateway
verbose n request = (1, answered (answer 10 100000))

complete-Metered_example :
    let request = request_of config prompt none none in
    Metered config steady request fresh (complete config steady prompt none none fresh)
    × Metered config steady request fresh (complete_with_tools config steady prompt none none fresh)
complete-Metered_example = complete-Metered config steady prompt none none fresh

over_ceiling_unmetered_example :
    let s' : Client = record fresh {
      breaker = record_success fresh.breaker;
      sent = 1;
      clock = 1;
    } in
    (complete config verbose prompt none none fresh ≡ (raised cost_limit_actual, s'))
    × (complete_with_tools config verbose prompt none none fresh ≡ (raised cost_limit_actual, s'))
unfolding check estimate_cost estimate_max_cost estimate_prompt_tokens metered
over_ceiling_unmetered_example =
    over_ceiling_unmetered config verbose prompt none none fresh 1 (answer 10 100000) (omega arith)
      refl refl refl (omega arith)

-- Answers without a choice, which are metered.
abbrev choiceless : Gateway
choiceless n request = (1, answered (record { usage = some (10, 20); choices = [] }))

no_choice_is_metered :
    let (result, s') = complete config choiceless prompt none none fresh in
    (result ≡ raised no_choices)
    × (s'.usage ≡ (complete config steady prompt none none fresh).1.usage)
unfolding complete guarded_call call_gateway check estimate_cost estimate_max_cost
    estimate_prompt_tokens metered
no_choice_is_metered = (refl, refl)

unpriced_preflight_refused :
    complete config steady prompt (some "gpt-9") none fresh ≡ (raised cost_limit_preflight, fresh)
unfolding estimate_cost estimate_max_cost estimate_prompt_tokens
unpriced_preflight_refused =
    preflight_refuses config steady prompt (some "gpt-9") none fresh (omega arith)

run_job-IsWithinBudget_example :
    IsWithinBudget config
      (run_job config steady
        (record { messages = prompt; model = none; max_tokens = none }
          ∷ record { messages = prompt; model = none; max_tokens = some 5 }
          ∷ [])
        fresh).usage
run_job-IsWithinBudget_example =
    run_job-IsWithinBudget config steady
      (record { messages = prompt; model = none; max_tokens = none }
        ∷ record { messages = prompt; model = none; max_tokens = some 5 }
        ∷ [])
      fresh (omega arith) (omega arith)

abbrev nothing_valid : List ℕ → Option ℕ
nothing_valid text = none

complete_json-Retried_example :
    Retried nothing_valid steady 3 no_usage fresh
      (complete_json nothing_valid "fix it" config steady prompt none none 2 fresh)
complete_json-Retried_example =
    complete_json-Retried nothing_valid "fix it" config steady prompt none none 2 fresh

all_three_sent :
    (complete_json nothing_valid "fix it" config steady prompt none none 2 fresh).1.sent ≡ 3
unfolding complete_json complete guarded_call call_gateway check estimate_cost estimate_max_cost
    estimate_prompt_tokens metered add note record_success
all_three_sent = refl

abbrev fenced : List ℕ
fenced = codes "Sure:\n```json\n{ \"a\": {} }\n``` done"

abbrev fenced_only : List ℕ
fenced_only = codes " ```JSON\n{ \"a\": {} } or so\n``` done"

json_substring-IsPiece_example :
    (json_substring fenced_only ≡ [])
    ⊎ (IsPiece (json_substring fenced_only) fenced_only × IsBraced (json_substring fenced_only))
json_substring-IsPiece_example = json_substring-IsPiece fenced_only

slices_object :
    (json_substring fenced_only ≡ codes "{ \"a\": {} }")
    × (json_substring fenced ≡ codes "{ \"a\": {} }")
unfolding json_substring
slices_object = (refl, refl)
