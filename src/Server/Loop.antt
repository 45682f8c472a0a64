-- ===== src/Server/Loop.antt =====
-- The loops of `handle_session` of main.c keep to the protocol of a session.
use umsftpd.Prelude.{
  ℕ, ◌≡◌, refl, sym, ◌∙◌, Bool, true, false, ◌&&◌, List, [], ◌∷◌, ◌++◌, Option, none, some,
  if-cases,
}
use umsftpd.Server.{
  Handle, Action, poll, Turn, End, close_on_error, loop_turn, Run, continue_run, event_loop,
  is_ready, is_some, await, handle_session, new_handle,
}
use umsftpd.Server.Protocol.{Progress, start, close_channel, Steps, stop, go, Steps-append}
use umsftpd.Server.Laws.{Agrees, poll-Calls}
use umsftpd.Server.Turns.{InLoop, Serves, serve-Serves}

-- A run, to its end.
pub record Runs (s : Progress) (run : Run) : Type 0 where
  pub next : Progress
  pub steps : Steps s run.1 next
  pub agrees : Agrees run.0 next

closing :
    (s : Progress) (poll_error : Bool) {actions : List Action} {u : Progress}
    → s.password ≡ true
    → s.channel ≡ true
    → Steps s actions u
    → Steps s (close_on_error poll_error ++ actions) u
closing s true p c steps = go (close_channel p c) steps
closing s false p c steps = steps

loop_turn-Serves :
    (handle : Handle) (s : Progress) (turn : Turn)
    → InLoop handle s
    → Serves s (loop_turn handle turn)
unfolding loop_turn
loop_turn-Serves handle s turn inside =
    let polled =
      poll-Calls true handle s turn.events inside.agrees (λ _. (inside.password, inside.channel)) in
    let p = polled.still_in inside.password in
    let c = polled.still_open inside.channel in
    let after = (poll true handle turn.events).0 in
    let same_sftp : after.sftp ≡ handle.sftp =
      sym polled.agrees.created ∙ polled.same_created ∙ inside.agrees.created in
    let still : InLoop after polled.next = record {
      agrees = polled.agrees;
      password = p;
      channel = c;
      initialized = polled.same_initialized ∙ inside.initialized ∙ sym same_sftp;
      requested = λ on. polled.still_requested (inside.requested (sym same_sftp ∙ on));
    } in
    let served = serve-Serves after polled.next still turn in
    record {
      next = served.next;
      steps = Steps-append polled.steps (closing polled.next turn.poll_error p c served.steps);
      agrees = served.agrees;
      goes_on = served.goes_on;
    }

event_loop-Runs :
    (handle : Handle) (s : Progress) (turns : List Turn)
    → InLoop handle s
    → Runs s (event_loop handle turns)
unfolding event_loop
event_loop-Runs handle s [] inside = record { next = s; steps = stop; agrees = inside.agrees }
event_loop-Runs handle s (turn ∷ turns) inside =
    let first = loop_turn-Serves handle s turn inside in
    goes (loop_turn handle turn) (event_loop (loop_turn handle turn).0 turns) first
      (λ e. event_loop-Runs (loop_turn handle turn).0 first.next turns (first.goes_on e))
  where
    goes :
        (result : Handle × List Action × Option End) (rest : Run) (first : Serves s result)
        → (result.2 ≡ none → Runs first.next rest)
        → Runs s (continue_run result rest)
    goes (handle', actions, some end) rest first more = record {
      next = first.next;
      steps = first.steps;
      agrees = first.agrees;
    }
    goes (handle', actions, none) rest first more = record {
      next = (more refl).next;
      steps = Steps-append first.steps (more refl).steps;
      agrees = (more refl).agrees;
    }

-- Before the loop, there is no SFTP session.
record Awaits (handle : Handle) (s : Progress) : Type 0 where
  agrees : Agrees handle s
  none_created : s.created ≡ false
  none_initialized : s.initialized ≡ false

both_true : (a b : Bool) → (a && b) ≡ true → (a ≡ true) × (b ≡ true)
both_true true b e = (refl, e)
both_true false b e = cc

enter :
    (handle : Handle) (s : Progress) → Awaits handle s → is_ready handle ≡ true → InLoop handle s
enter handle s waits ready =
    let (p, c) = both_true handle.authenticated (is_some handle.channel) ready in
    let off : handle.sftp ≡ false = sym waits.agrees.created ∙ waits.none_created in
    record {
      agrees = waits.agrees;
      password = waits.agrees.password ∙ p;
      channel = waits.agrees.channel ∙ c;
      initialized = waits.none_initialized ∙ sym off;
      requested = λ on. cc;
    }

await-Runs :
    (handle : Handle) (s : Progress) (turns : List Turn)
    → Awaits handle s
    → Runs s (await handle turns)
unfolding await
await-Runs handle s [] waits = record { next = s; steps = stop; agrees = waits.agrees }
await-Runs handle s (turn ∷ turns) waits =
    let polled = poll-Calls false handle s turn.events waits.agrees (λ q. cc) in
    let after = poll false handle turn.events in
    let rest = await-Runs after.0 polled.next turns (record {
      agrees = polled.agrees;
      none_created = polled.same_created ∙ waits.none_created;
      none_initialized = polled.same_initialized ∙ waits.none_initialized;
    }) in
    if-cases (Runs s) (is_ready handle)
      (λ ready. event_loop-Runs handle s (turn ∷ turns) (enter handle s waits ready))
      (λ _.
        if-cases (Runs s) turn.poll_error
          (λ _. record { next = polled.next; steps = polled.steps; agrees = polled.agrees })
          (λ _. record {
            next = rest.next;
            steps = Steps-append polled.steps rest.steps;
            agrees = rest.agrees;
          }))

-- Whatever libssh delivers and answers, and wherever a session ends, what it did keeps to the protocol: a
-- channel is opened at most once, a subsystem is only accepted behind a login and on a channel, the
-- one SFTP session is only created behind these, messages are only received once it is initialised, and
-- each is replied to at most once, before the next, with the reply for it. The handle then is what
-- these actions say.
pub handle_session-Runs :
    (hid : ℕ) (key_exchange : Bool) (turns : List Turn)
    → Runs start (handle_session hid key_exchange turns)
unfolding handle_session
handle_session-Runs hid key_exchange turns =
    let fresh : Agrees (new_handle hid) start = record {
      password = refl;
      channel = refl;
      subsystem = refl;
      created = refl;
    } in
    if-cases (Runs start) key_exchange
      (λ _.
        await-Runs (new_handle hid) start turns
          (record { agrees = fresh; none_created = refl; none_initialized = refl }))
      (λ _. record { next = start; steps = stop; agrees = fresh })
