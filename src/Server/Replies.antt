-- ===== src/Server/Replies.antt =====
-- The replies of a session of main.c against its messages.
use umsftpd.Prelude.{
  ℕ, ◌≡◌, refl, sym, ap, ◌∙◌, Bool, true, false, not, ◌&&◌, List, [], ◌∷◌, ◌++◌, Option, none, some,
  Bytes, codes, str_eq, append_assoc, if-cases,
}
use mathlib.Core.List.{filter_map, filter_map-append}
use umsftpd.Server.{
  Handle, Event, subsystem_requested, password_given, channel_requested, Message, Reply,
  process_client_message, Action, received, replied, open_if_none, subsystem_request, auth_password,
  channel_open, callback, poll, Turn, End, reply_action, take_message, serve, close_on_error,
  loop_turn, Run, continue_run, event_loop, is_ready, is_some, await, handle_session, new_handle,
}

abbrev received_message : Action → Option Message
received_message (received message) = some message
received_message _ = none

abbrev sent_reply : Action → Option (Message × Reply)
sent_reply (replied message reply) = some (message, reply)
sent_reply _ = none

-- The messages that were received, and the replies that were sent to which messages, in their order.
abbrev pub messages : List Action → List Message
messages = filter_map received_message

abbrev pub replies : List Action → List (Message × Reply)
replies = filter_map sent_reply

abbrev pub due : Message → Option Reply → List (Message × Reply)
due message none = []
due message (some reply) = (message, reply) ∷ []

-- The replies that messages call for.
unfoldable pub replies_due : List Message → List (Message × Reply)
replies_due [] = []
replies_due (message ∷ messages) =
    due message (process_client_message message.type) ++ replies_due messages

-- The messages were replied to as they call for.
unfoldable IsAnswered : List Action → Type 0
IsAnswered actions = replies actions ≡ replies_due (messages actions)

replies_due-append : (a b : List Message) → replies_due (a ++ b) ≡ replies_due a ++ replies_due b
unfolding replies_due
replies_due-append [] b = refl
replies_due-append (message ∷ a) b =
    ap (λ rs. due message (process_client_message message.type) ++ rs) (replies_due-append a b)
    ∙ sym (
        append_assoc (due message (process_client_message message.type)) (replies_due a)
          (replies_due b))

IsAnswered-append : (a b : List Action) → IsAnswered a → IsAnswered b → IsAnswered (a ++ b)
unfolding IsAnswered
IsAnswered-append a b ha hb =
    filter_map-append sent_reply a b
    ∙ ap (λ r. r ++ replies b) ha
    ∙ ap (λ r. replies_due (messages a) ++ r) hb
    ∙ sym (replies_due-append (messages a) (messages b))
    ∙ ap replies_due (sym (filter_map-append received_message a b))

none-IsAnswered : IsAnswered []
unfolding IsAnswered replies_due filter_map
none-IsAnswered = refl

subsystem_request-IsAnswered :
    (handle : Handle) (subsystem : Bytes) → IsAnswered (subsystem_request handle subsystem).1
unfolding IsAnswered subsystem_request replies_due filter_map
subsystem_request-IsAnswered handle subsystem =
    if-cases (λ (r : Handle × List Action). IsAnswered r.1) (str_eq subsystem (codes "sftp"))
      (λ _. refl) (λ _. refl)

channel_open-IsAnswered :
    (handle : Handle) (new : Option ℕ) → IsAnswered (channel_open handle new).1
unfolding IsAnswered channel_open replies_due filter_map
channel_open-IsAnswered handle new = opening handle.channel new
  where
    opening :
        (channel new : Option ℕ)
        → replies (open_if_none handle new channel).1
          ≡ replies_due (messages (open_if_none handle new channel).1)
    opening (some channel) new = refl
    opening none none = refl
    opening none (some channel) = refl

callback-IsAnswered :
    (channel_callbacks : Bool) (handle : Handle) (event : Event)
    → IsAnswered (callback channel_callbacks handle event).1
unfolding IsAnswered auth_password replies_due filter_map
callback-IsAnswered true handle (subsystem_requested subsystem) =
    subsystem_request-IsAnswered handle subsystem
callback-IsAnswered false handle (subsystem_requested subsystem) = refl
callback-IsAnswered channel_callbacks handle (password_given user pass) = refl
callback-IsAnswered channel_callbacks handle (channel_requested new) =
    channel_open-IsAnswered handle new

poll-IsAnswered :
    (channel_callbacks : Bool) (handle : Handle) (events : List Event)
    → IsAnswered (poll channel_callbacks handle events).1
unfolding poll
poll-IsAnswered channel_callbacks handle [] = none-IsAnswered
poll-IsAnswered channel_callbacks handle (event ∷ events) =
    let called = callback channel_callbacks handle event in
    IsAnswered-append called.1 (poll channel_callbacks called.0 events).1
      (callback-IsAnswered channel_callbacks handle event)
      (poll-IsAnswered channel_callbacks called.0 events)

take_message-IsAnswered :
    (turn : Turn) (message : Option Message) → IsAnswered (take_message turn message).0
unfolding IsAnswered replies_due filter_map
take_message-IsAnswered turn none = refl
take_message-IsAnswered turn (some message) = answered (process_client_message message.type) refl
  where
    answered :
        (reply : Option Reply)
        → reply ≡ process_client_message message.type
        → replies (received message ∷ reply_action message reply)
          ≡ due message (process_client_message message.type)
            ++ replies_due (messages (reply_action message reply))
    answered none e = ap (λ r. due message r ++ []) e
    answered (some reply) e = ap (λ r. due message r ++ []) e

serve-IsAnswered : (handle : Handle) (turn : Turn) → IsAnswered (serve handle turn).1
unfolding serve IsAnswered replies_due filter_map
serve-IsAnswered handle turn =
    let P = λ (r : Handle × List Action × Option End). IsAnswered r.1 in
    if-cases P (handle.sftp_requested && not handle.sftp && is_some handle.channel)
      (λ _.
        if-cases P (not turn.server_new) (λ _. refl)
          (λ _. if-cases P (not turn.server_init) (λ _. refl) (λ _. refl)))
      (λ _. if-cases P handle.sftp (λ _. take_message-IsAnswered turn turn.message) (λ _. refl))

close_on_error-IsAnswered : (poll_error : Bool) → IsAnswered (close_on_error poll_error)
unfolding IsAnswered replies_due filter_map
close_on_error-IsAnswered true = refl
close_on_error-IsAnswered false = refl

loop_turn-IsAnswered : (handle : Handle) (turn : Turn) → IsAnswered (loop_turn handle turn).1
unfolding loop_turn
loop_turn-IsAnswered handle turn =
    let polled = poll true handle turn.events in
    let served = serve polled.0 turn in
    IsAnswered-append polled.1 (close_on_error turn.poll_error ++ served.1)
      (poll-IsAnswered true handle turn.events)
      (IsAnswered-append (close_on_error turn.poll_error) served.1
        (close_on_error-IsAnswered turn.poll_error) (serve-IsAnswered polled.0 turn))

event_loop-IsAnswered :
    (handle : Handle) (turns : List Turn) → IsAnswered (event_loop handle turns).1
unfolding event_loop
event_loop-IsAnswered handle [] = none-IsAnswered
event_loop-IsAnswered handle (turn ∷ turns) =
    goes (loop_turn handle turn) (event_loop (loop_turn handle turn).0 turns)
      (loop_turn-IsAnswered handle turn) (event_loop-IsAnswered (loop_turn handle turn).0 turns)
  where
    goes :
        (result : Handle × List Action × Option End) (rest : Run)
        → IsAnswered result.1
        → IsAnswered rest.1
        → IsAnswered (continue_run result rest).1
    goes (handle', actions, some end) rest here more = here
    goes (handle', actions, none) rest here more = IsAnswered-append actions rest.1 here more

await-IsAnswered : (handle : Handle) (turns : List Turn) → IsAnswered (await handle turns).1
unfolding await
await-IsAnswered handle [] = none-IsAnswered
await-IsAnswered handle (turn ∷ turns) =
    let polled = poll false handle turn.events in
    let rest = await polled.0 turns in
    let P = λ (r : Run). IsAnswered r.1 in
    let here = poll-IsAnswered false handle turn.events in
    if-cases P (is_ready handle) (λ _. event_loop-IsAnswered handle (turn ∷ turns))
      (λ _.
        if-cases P turn.poll_error (λ _. here)
          (λ _. IsAnswered-append polled.1 rest.1 here (await-IsAnswered polled.0 turns)))

-- In every session, the replies that are sent are, in their order, exactly those that
-- `process_client_message` has for the messages received; none is lost, repeated or sent unasked.
pub handle_session-replies :
    (hid : ℕ) (key_exchange : Bool) (turns : List Turn)
    → let actions = (handle_session hid key_exchange turns).1 in
      replies actions ≡ replies_due (messages actions)
unfolding handle_session IsAnswered
handle_session-replies hid key_exchange turns =
    if-cases (λ (r : Run). IsAnswered r.1) key_exchange
      (λ _. await-IsAnswered (new_handle hid) turns) (λ _. none-IsAnswered)
