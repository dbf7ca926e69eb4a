-- ===== src/Scenarios/Waiting.antt =====
-- The pending requests of pkg/transport/transport.go: responses in time, too early and after a cleanup.
use mcp_sdk_go.Base.Text.{Text, codes, text_eq}
use mcp_sdk_go.Base.Dict.{lookup, insert}
use mcp_sdk_go.Base.{◌≡◌, refl, List, [], ◌∷◌, In, none, some}
use mcp_sdk_go.Transport.Dispatch.{Response}
use mcp_sdk_go.Transport.Pending.{
  no_waits, begin_wait, sent, not_pending, blocks, panics, takes_response, takes_nil, waits_on,
  has_returned, give_up, take_response, handle_response, cleanup, close_all, WaitEvent, waits,
  arrives, takes, gives_up, cleans_up, waiting_at, sending, taken, no_result, step_wait, run_waits,
}
use mcp_sdk_go.Transport.Pending.Ready.{run_waits_never_blocks}
use mcp_sdk_go.Transport.Pending.Delivery.{run_waits-takes_response}

abbrev answer : Text → Response
answer id = record { jsonrpc = codes "2.0"; id = id; result = some (codes "{}"); error = none }

abbrev first : Text
first = codes "req_1"

abbrev second : Text
second = codes "req_2"

-- A response that comes before its request waits is lost: the wait goes on.
early_is_lost :
    (run_waits no_waits (arrives (answer first) ∷ waits first ∷ takes 0 ∷ [])).1
    ≡ sending not_pending ∷ waiting_at 0 ∷ taken waits_on ∷ []
unfolding run_waits step_wait handle_response begin_wait take_response no_waits lookup
early_is_lost = refl

-- A request that waits at a cleanup gets a nil response without an error.
cleanup_gives_nil :
    (run_waits no_waits (waits first ∷ cleans_up ∷ takes 0 ∷ [])).1
    ≡ waiting_at 0 ∷ no_result ∷ taken takes_nil ∷ []
unfolding run_waits step_wait cleanup close_all begin_wait take_response no_waits insert
cleanup_gives_nil = refl

abbrev busy : List WaitEvent
busy =
    waits first
    ∷ arrives (answer second)
    ∷ waits second
    ∷ gives_up 0
    ∷ arrives (answer second)
    ∷ arrives (answer second)
    ∷ takes 1
    ∷ cleans_up
    ∷ []

run_waits_never_blocks_example :
    (In (sending blocks) (run_waits no_waits busy).1 → ⊥)
    × (In (sending panics) (run_waits no_waits busy).1 → ⊥)
run_waits_never_blocks_example = run_waits_never_blocks busy

-- A call whose context has ended takes nothing, though its response is there.
ended_takes_nothing :
    (run_waits no_waits (waits first ∷ arrives (answer first) ∷ gives_up 0 ∷ takes 0 ∷ [])).1
    ≡ waiting_at 0 ∷ sending sent ∷ no_result ∷ taken has_returned ∷ []
unfolding run_waits step_wait handle_response begin_wait take_response give_up no_waits lookup
    insert text_eq
ended_takes_nothing = refl

run_waits-takes_response_example :
    let start = begin_wait (run_waits no_waits (waits first ∷ [])).0 second in
    let arrival =
      step_wait
        (run_waits start.0 (arrives (answer first) ∷ takes 0 ∷ takes 1 ∷ [])).0
        (arrives (answer second)) in
    (arrival.1 ≡ sending sent)
    × ((take_response (run_waits arrival.0 (waits first ∷ gives_up 2 ∷ cleans_up ∷ [])).0 start.1).1
        ≡ takes_response (answer second))
unfolding text_eq begin_wait run_waits step_wait no_waits
run_waits-takes_response_example =
    run_waits-takes_response (waits first ∷ []) (arrives (answer first) ∷ takes 0 ∷ takes 1 ∷ [])
      (waits first ∷ gives_up 2 ∷ cleans_up ∷ []) (answer second) (refl, tt)
      (refl, (refl, (refl, tt))) (refl, (refl, (refl, tt)))
