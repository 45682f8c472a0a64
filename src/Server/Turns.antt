-- ===== src/Server/Turns.antt =====
-- A turn of the event loop of main.c behind its poll keeps to the protocol of a session.
use umsftpd.Prelude.{
  ◌≡◌, refl, ◌∙◌, Bool, true, false, not, ◌&&◌, List, [], ◌∷◌, Option, none, some, if◌then◌else◌,
  if-cases,
}
use umsftpd.Server.{
  Handle, Message, Reply, process_client_message, Action, created_sftp, initialized_sftp, received,
  reply_action, Turn, End, while_open, take_message, serve, is_some,
}
use umsftpd.Server.Protocol.{
  Progress, create_sftp, initialize_sftp, receive, reply, Steps, stop, go,
}
use umsftpd.Server.Laws.{Agrees}

-- The handle in the event loop.
pub record InLoop (handle : Handle) (s : Progress) : Type 0 where
  pub agrees : Agrees handle s
  pub password : s.password ≡ true
  pub channel : s.channel ≡ true
  pub initialized : s.initialized ≡ handle.sftp
  pub requested : handle.sftp ≡ true → s.subsystem ≡ true

-- A turn: the loop goes on from a handle that is still in it.
pub record Serves (s : Progress) (result : Handle × List Action × Option End) : Type 0 where
  pub next : Progress
  pub steps : Steps s result.1 next
  pub agrees : Agrees result.0 next
  pub goes_on : result.2 ≡ none → InLoop result.0 next

all_three : (a b c : Bool) → (a && not b && c) ≡ true → (a ≡ true) × (b ≡ false) × (c ≡ true)
all_three true false true e = (refl, refl, refl)
all_three true false false e = cc
all_three true true c e = cc
all_three false b c e = cc

module _ (handle : Handle) (s : Progress) (inside : InLoop handle s) where
  silent_turn : (end : Option End) → Serves s (handle, [], end)
  silent_turn end = record { next = s; steps = stop; agrees = inside.agrees; goes_on = λ _. inside }

  created-Agrees :
      (t : Progress)
      → t.password ≡ s.password
      → t.channel ≡ s.channel
      → t.subsystem ≡ s.subsystem
      → t.created ≡ true
      → Agrees (record handle { sftp = true }) t
  created-Agrees t p c sub e = record {
    password = p ∙ inside.agrees.password;
    channel = c ∙ inside.agrees.channel;
    subsystem = sub ∙ inside.agrees.subsystem;
    created = e;
  }

  create_turn :
      (turn : Turn)
      → (handle.sftp_requested && not handle.sftp && is_some handle.channel) ≡ true
      → Serves s (
          if not turn.server_new
          then (handle, [], some End.no_sftp)
          else if not turn.server_init
          then (record handle { sftp = true }, created_sftp ∷ [], some End.no_sftp)
          else (
            record handle { sftp = true },
            created_sftp ∷ initialized_sftp ∷ [],
            while_open turn,
          ))
  create_turn turn e =
      let (requested, no_sftp, has_channel) =
        all_three handle.sftp_requested handle.sftp (is_some handle.channel) e in
      let created =
        create_sftp inside.password inside.channel (inside.agrees.subsystem ∙ requested)
          (inside.agrees.created ∙ no_sftp) in
      if-cases (Serves s) (not turn.server_new) (λ _. silent_turn (some End.no_sftp))
        (λ _.
          if-cases (Serves s) (not turn.server_init)
            (λ _. record {
              next = record s { created = true };
              steps = go created stop;
              agrees = created-Agrees (record s { created = true }) refl refl refl refl;
              goes_on = λ q. cc;
            })
            (λ _. record {
              next = record s { created = true; initialized = true };
              steps = go created (go (initialize_sftp refl (inside.initialized ∙ no_sftp)) stop);
              agrees =
                  created-Agrees (record s { created = true; initialized = true }) refl refl refl
                    refl;
              goes_on = λ _. record {
                agrees =
                    created-Agrees (record s { created = true; initialized = true }) refl refl refl
                      refl;
                password = inside.password;
                channel = inside.channel;
                initialized = refl;
                requested = λ _. inside.agrees.subsystem ∙ requested;
              };
            }))

  replies_turn :
      (message : Message) (answer : Option Reply) (end : Option End)
      → process_client_message message.type ≡ answer
      → handle.sftp ≡ true
      → Serves s (handle, received message ∷ reply_action message answer, end)
  replies_turn message none end e on = record {
    next = record s { pending = some message };
    steps =
        go (receive inside.password inside.channel (inside.requested on) (inside.initialized ∙ on))
          stop;
    agrees = record {
      password = inside.agrees.password;
      channel = inside.agrees.channel;
      subsystem = inside.agrees.subsystem;
      created = inside.agrees.created;
    };
    goes_on = λ _. record {
      agrees = record {
        password = inside.agrees.password;
        channel = inside.agrees.channel;
        subsystem = inside.agrees.subsystem;
        created = inside.agrees.created;
      };
      password = inside.password;
      channel = inside.channel;
      initialized = inside.initialized;
      requested = inside.requested;
    };
  }
  replies_turn message (some answer) end e on = record {
    next = record s { pending = none };
    steps =
        go (receive inside.password inside.channel (inside.requested on) (inside.initialized ∙ on))
          (go (reply refl e) stop);
    agrees = record {
      password = inside.agrees.password;
      channel = inside.agrees.channel;
      subsystem = inside.agrees.subsystem;
      created = inside.agrees.created;
    };
    goes_on = λ _. record {
      agrees = record {
        password = inside.agrees.password;
        channel = inside.agrees.channel;
        subsystem = inside.agrees.subsystem;
        created = inside.agrees.created;
      };
      password = inside.password;
      channel = inside.channel;
      initialized = inside.initialized;
      requested = inside.requested;
    };
  }

  message_turn :
      (turn : Turn) (message : Option Message)
      → handle.sftp ≡ true
      → Serves s (handle, (take_message turn message).0, (take_message turn message).1)
  message_turn turn none on = silent_turn (some End.no_message)
  message_turn turn (some message) on =
      replies_turn message (process_client_message message.type) (while_open turn) refl on

  pub serve-Serves : (turn : Turn) → Serves s (serve handle turn)
  unfolding serve
  serve-Serves turn =
      if-cases (Serves s) (handle.sftp_requested && not handle.sftp && is_some handle.channel)
        (create_turn turn)
        (λ _.
          if-cases (Serves s) handle.sftp (message_turn turn turn.message)
            (λ _. silent_turn (while_open turn)))
