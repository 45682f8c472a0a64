-- ===== src/Server.antt =====
-- main.c: a session of the server. What libssh delivers and answers is an argument: the events of each
-- poll, the results of its calls, and the client's messages.
pub mod Protocol
pub mod Laws
pub mod Turns
pub mod Loop
pub mod Replies
pub mod Listen
mod Tests
use umsftpd.Prelude.{
  ℕ, ◌+◌, ◌%◌, ◌^◌, Bool, true, false, not, ◌&&◌, ◌||◌, List, [], ◌∷◌, ◌++◌, Option, none, some,
  Bytes, codes, str_eq, if◌then◌else◌,
}

-- `struct ssh_handle_t`. A channel is the number of its pointer; the event and the session are never NULL,
-- and of the SFTP session it matters only whether there is one.
pub record Handle : Type 0 where
  pub hid : ℕ
  pub channel : Option ℕ
  pub sftp : Bool
  pub authenticated : Bool
  pub sftp_requested : Bool
  pub authentication_attempts : ℕ

-- What a poll delivers to the callbacks; a request for a channel comes with what `ssh_channel_new` gives.
pub data Event : Type 0 where
  subsystem_requested : Bytes → Event
  password_given : Bytes → Bytes → Event
  channel_requested : Option ℕ → Event

-- The types of messages that the server tells apart.
pub data MessageType : Type 0 where
  realpath opendir readdir close lstat : MessageType
  other : ℕ → MessageType

pub record Message : Type 0 where
  pub type : MessageType
  pub id : ℕ
  pub filename : Bytes

pub data AttributeFlag : Type 0 where
  attr_size attr_uidgid attr_permissions attr_acmodtime : AttributeFlag

-- The attributes that `SSH_FXP_LSTAT` is answered with; the others are 0.
pub record Attributes : Type 0 where
  pub flags : List AttributeFlag
  pub name : Bytes
  pub longname : Bytes
  pub uid : ℕ
  pub gid : ℕ
  pub is_directory : Bool
  pub permissions : ℕ

pub data Status : Type 0 where
  fx_ok fx_failure : Status

pub data Reply : Type 0 where
  reply_name : Bytes → Reply
  reply_status : Status → Bytes → Reply
  reply_attr : Attributes → Reply

-- What the server does, and which callbacks it answers with success.
pub data Action : Type 0 where
  accepted_password : Bytes → Action
  opened_channel : ℕ → Action
  accepted_subsystem : Action
  closed_channel : Action
  created_sftp : Action
  initialized_sftp : Action
  received : Message → Action
  replied : Message → Reply → Action

-- `subsystem_request`
unfoldable pub subsystem_request : Handle → Bytes → Handle × List Action
subsystem_request handle subsystem =
    if str_eq subsystem (codes "sftp")
    then (record handle { sftp_requested = true }, accepted_subsystem ∷ [])
    else (handle, [])

-- `auth_password`
unfoldable pub auth_password : Handle → Bytes → Bytes → Handle × List Action
auth_password handle user pass = (
  record handle {
    authenticated = true;
    authentication_attempts = (handle.authentication_attempts + 1) % 2 ^ 32;
  },
  accepted_password user ∷ [],
)

abbrev pub opened : Option ℕ → List Action
opened none = []
opened (some channel) = opened_channel channel ∷ []

abbrev pub open_if_none : Handle → Option ℕ → Option ℕ → Handle × List Action
open_if_none handle new (some channel) = (handle, [])
open_if_none handle new none = (record handle { channel = new }, opened new)

-- `channel_open`
unfoldable pub channel_open : Handle → Option ℕ → Handle × List Action
channel_open handle new = open_if_none handle new handle.channel

abbrev pub listed_attributes : Attributes
listed_attributes = record {
  flags = attr_size ∷ attr_uidgid ∷ attr_permissions ∷ attr_acmodtime ∷ [];
  name = codes "foo";
  longname = codes "bar";
  uid = 1000;
  gid = 2000;
  is_directory = true;
  permissions = 16877;
}

-- `process_client_message`: the reply it sends, if any.
unfoldable pub process_client_message : MessageType → Option Reply
process_client_message realpath = some (reply_name (codes "/foo"))
process_client_message opendir = none
process_client_message readdir = none
process_client_message close = some (reply_status fx_ok (codes "OK"))
process_client_message lstat = some (reply_attr listed_attributes)
process_client_message (other n) = some (reply_status fx_failure (codes "Unknown type"))

-- A callback; those of the channel are set only when the session has one and is authenticated.
abbrev pub callback : Bool → Handle → Event → Handle × List Action
callback channel_callbacks handle (subsystem_requested subsystem) =
    if channel_callbacks then subsystem_request handle subsystem else (handle, [])
callback channel_callbacks handle (password_given user pass) = auth_password handle user pass
callback channel_callbacks handle (channel_requested new) = channel_open handle new

-- The callbacks of one poll, `ssh_event_dopoll`.
unfoldable pub poll : Bool → Handle → List Event → Handle × List Action
poll channel_callbacks handle [] = (handle, [])
poll channel_callbacks handle (event ∷ events) =
    let called = callback channel_callbacks handle event in
    let rest = poll channel_callbacks called.0 events in (rest.0, called.1 ++ rest.1)

-- What libssh delivers and answers in a turn: a poll and whether it fails, whether `sftp_server_new` and
-- `sftp_server_init` succeed, a message, and whether the channel is open at the end.
pub record Turn : Type 0 where
  pub events : List Event
  pub poll_error : Bool
  pub server_new : Bool
  pub server_init : Bool
  pub message : Option Message
  pub is_open : Bool

-- Why a session ends; `waiting` is that of one that still goes on.
pub data End : Type 0 where
  no_key_exchange poll_failed no_sftp no_message channel_closed waiting : End

abbrev pub is_some : Option ℕ → Bool
is_some none = false
is_some (some channel) = true

abbrev pub reply_action : Message → Option Reply → List Action
reply_action message none = []
reply_action message (some reply) = replied message reply ∷ []

-- The condition of the loop.
abbrev pub while_open : Turn → Option End
while_open turn = if turn.is_open then none else some channel_closed

-- The rest of a turn with an SFTP session.
abbrev pub take_message : Turn → Option Message → List Action × Option End
take_message turn none = ([], some no_message)
take_message turn (some message) =
    (received message ∷ reply_action message (process_client_message message.type), while_open turn)

-- The rest of a turn behind its poll.
unfoldable pub serve : Handle → Turn → Handle × List Action × Option End
serve handle turn =
    if handle.sftp_requested && not handle.sftp && is_some handle.channel
    then if not turn.server_new
      then (handle, [], some no_sftp)
      else if not turn.server_init
      then (record handle { sftp = true }, created_sftp ∷ [], some no_sftp)
      else (record handle { sftp = true }, created_sftp ∷ initialized_sftp ∷ [], while_open turn)
    else if handle.sftp
    then (let taken = take_message turn turn.message in (handle, taken.0, taken.1))
    else (handle, [], while_open turn)

abbrev pub close_on_error : Bool → List Action
close_on_error poll_error = if poll_error then closed_channel ∷ [] else []

-- A turn of `handle_session_event_loop`.
unfoldable pub loop_turn : Handle → Turn → Handle × List Action × Option End
loop_turn handle turn =
    let polled = poll true handle turn.events in
    let served = serve polled.0 turn in
    (served.0, polled.1 ++ (close_on_error turn.poll_error ++ served.1), served.2)

-- A run: the handle at its end, what was done, and why it ended.
abbrev pub Run : Type 0
Run = Handle × List Action × End

abbrev pub prefixed : List Action → Run → Run
prefixed actions run = (run.0, actions ++ run.1, run.2)

abbrev pub continue_run : Handle × List Action × Option End → Run → Run
continue_run (handle, actions, some end) rest = (handle, actions, end)
continue_run (handle, actions, none) rest = prefixed actions rest

-- `handle_session_event_loop`, for the turns that libssh lets happen.
unfoldable pub event_loop : Handle → List Turn → Run
event_loop handle [] = (handle, [], waiting)
event_loop handle (turn ∷ turns) =
    let done_turn = loop_turn handle turn in
    let rest = event_loop done_turn.0 turns in continue_run done_turn rest

abbrev pub is_ready : Handle → Bool
is_ready handle = handle.authenticated && is_some handle.channel

-- The loop of `handle_session` that polls for authentication, and the loop behind it.
unfoldable pub await : Handle → List Turn → Run
await handle [] = (handle, [], waiting)
await handle (turn ∷ turns) =
    let polled = poll false handle turn.events in
    let rest = await polled.0 turns in
    if is_ready handle
    then event_loop handle (turn ∷ turns)
    else if turn.poll_error
    then (polled.0, polled.1, poll_failed)
    else prefixed polled.1 rest

-- The handle of `_handle_session`.
abbrev pub new_handle : ℕ → Handle
new_handle hid = record {
  hid = hid;
  channel = none;
  sftp = false;
  authenticated = false;
  sftp_requested = false;
  authentication_attempts = 0;
}

-- `handle_session`, whose key exchange may fail.
unfoldable pub handle_session : ℕ → Bool → List Turn → Run
handle_session hid key_exchange turns =
    if key_exchange then await (new_handle hid) turns else (new_handle hid, [], no_key_exchange)
