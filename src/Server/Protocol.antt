-- ===== src/Server/Protocol.antt =====
-- The protocol of a session of main.c, as a step relation on what an observer of its actions knows.
use umsftpd.Prelude.{ℕ, ◌≡◌, Bool, true, false, List, [], ◌∷◌, ◌++◌, Option, none, some}
use umsftpd.Server.{
  Message, Reply, process_client_message, Action, accepted_password, opened_channel,
  accepted_subsystem, closed_channel, created_sftp, initialized_sftp, received, replied,
}

-- What has happened so far: a password was accepted, a channel opened, the subsystem accepted, the SFTP
-- session created and initialised; and the message that may be replied to.
pub record Progress : Type 0 where
  pub password : Bool
  pub channel : Bool
  pub subsystem : Bool
  pub created : Bool
  pub initialized : Bool
  pub pending : Option Message

abbrev pub start : Progress
start = record {
  password = false;
  channel = false;
  subsystem = false;
  created = false;
  initialized = false;
  pending = none;
}

-- What may happen next. The constructors' premises are the order of a session: one channel, a subsystem
-- behind login and channel, one SFTP session behind all three, messages once it is initialised, and one
-- reply to each message, at once.
pub data Step : Progress → Action → Progress → Type 0 where
  log_in :
      {s : Progress} {user : List ℕ}
      → Step s (accepted_password user) (record s { password = true })
  open_channel :
      {s : Progress} {channel : ℕ}
      → s.channel ≡ false
      → Step s (opened_channel channel) (record s { channel = true })
  accept_subsystem :
      {s : Progress}
      → s.password ≡ true
      → s.channel ≡ true
      → Step s accepted_subsystem (record s { subsystem = true })
  close_channel : {s : Progress} → s.password ≡ true → s.channel ≡ true → Step s closed_channel s
  create_sftp :
      {s : Progress}
      → s.password ≡ true
      → s.channel ≡ true
      → s.subsystem ≡ true
      → s.created ≡ false
      → Step s created_sftp (record s { created = true })
  initialize_sftp :
      {s : Progress}
      → s.created ≡ true
      → s.initialized ≡ false
      → Step s initialized_sftp (record s { initialized = true })
  receive :
      {s : Progress} {message : Message}
      → s.password ≡ true
      → s.channel ≡ true
      → s.subsystem ≡ true
      → s.initialized ≡ true
      → Step s (received message) (record s { pending = some message })
  reply :
      {s : Progress} {message : Message} {answer : Reply}
      → s.pending ≡ some message
      → process_client_message message.type ≡ some answer
      → Step s (replied message answer) (record s { pending = none })

pub data Steps : Progress → List Action → Progress → Type 0 where
  stop : {s : Progress} → Steps s [] s
  go :
      {s t u : Progress} {action : Action} {actions : List Action}
      → Step s action t
      → Steps t actions u
      → Steps s (action ∷ actions) u

pub Steps-append :
    {s t u : Progress} {actions more : List Action}
    → Steps s actions t
    → Steps t more u
    → Steps s (actions ++ more) u
Steps-append stop after = after
Steps-append (go step steps) after = go step (Steps-append steps after)
