-- ===== src/Server/Tests.antt =====
-- main.c: a session of a client that logs in, opens a channel, and asks for the SFTP subsystem.
use umsftpd.Prelude.{◌≡◌, refl, true, false, List, [], ◌∷◌, none, some, codes}
use umsftpd.Server.{
  subsystem_requested, password_given, channel_requested, MessageType, Message,
  process_client_message, Turn, End, handle_session, await, event_loop, loop_turn, serve, poll,
  subsystem_request, auth_password, channel_open, accepted_password, opened_channel,
  accepted_subsystem, created_sftp, initialized_sftp, received, replied, reply_name, reply_status,
  fx_ok,
}
use umsftpd.Server.Protocol.{start}
use umsftpd.Server.Loop.{Runs, handle_session-Runs}
use umsftpd.Server.Replies.{messages, replies, replies_due, handle_session-replies}
use umsftpd.Server.Listen.{Connection, nothing, held, start_server, start_server-held}

abbrev quiet : Turn
quiet = record {
  events = [];
  poll_error = false;
  server_new = true;
  server_init = true;
  message = none;
  is_open = true;
}

abbrev asks : MessageType → Turn
asks t = record quiet { message = some (record { type = t; id = 1; filename = codes "/" }) }

-- The login, the channel, the subsystem, and three messages; then the client is gone.
abbrev turns : List Turn
turns =
    record quiet { events = password_given (codes "joe") (codes "wrong") ∷ [] }
    ∷ record quiet { events = channel_requested (some 7) ∷ [] }
    ∷ record quiet { events = channel_requested (some 8) ∷ subsystem_requested (codes "sftp") ∷ [] }
    ∷ asks MessageType.realpath
    ∷ asks MessageType.opendir
    ∷ asks MessageType.close
    ∷ quiet
    ∷ []

abbrev asked : MessageType → Message
asked t = record { type = t; id = 1; filename = codes "/" }

-- Any password is accepted, the second channel is not, and the request for a directory has no reply.
visit_test :
    (handle_session 1 true turns).1
    ≡ accepted_password (codes "joe")
      ∷ opened_channel 7
      ∷ accepted_subsystem
      ∷ created_sftp
      ∷ initialized_sftp
      ∷ received (asked MessageType.realpath)
      ∷ replied (asked MessageType.realpath) (reply_name (codes "/foo"))
      ∷ received (asked MessageType.opendir)
      ∷ received (asked MessageType.close)
      ∷ replied (asked MessageType.close) (reply_status fx_ok (codes "OK"))
      ∷ []
unfolding handle_session await event_loop loop_turn serve poll subsystem_request auth_password
    channel_open process_client_message
visit_test = refl

end_test : (handle_session 1 true turns).2 ≡ End.no_message
unfolding handle_session await event_loop loop_turn serve poll subsystem_request auth_password
    channel_open process_client_message
end_test = refl

handle_session-Runs_example : Runs start (handle_session 1 true turns)
handle_session-Runs_example = handle_session-Runs 1 true turns

handle_session-replies_example :
    replies (handle_session 1 true turns).1 ≡ replies_due (messages (handle_session 1 true turns).1)
handle_session-replies_example = handle_session-replies 1 true turns

abbrev visitor : Connection
visitor = record {
  session_new = true;
  event_new = true;
  accepts = true;
  key_exchange = true;
  turns = turns;
}

start_server-held_example :
    held nothing
      (start_server true true true (
        visitor ∷ record visitor { accepts = false } ∷ record visitor { event_new = false } ∷ [])).0
    ≡ some (record { sessions = 1; events = 0 })
start_server-held_example =
    start_server-held true true true
      (visitor ∷ record visitor { accepts = false } ∷ record visitor { event_new = false } ∷ [])
