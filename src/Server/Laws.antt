-- ===== src/Server/Laws.antt =====
-- Every run of `handle_session` of main.c keeps to the protocol of a session.
use umsftpd.Prelude.{
  ℕ, ◌≡◌, refl, ◌∙◌, Bool, true, false, List, [], ◌∷◌, Option, none, some, Bytes, codes, str_eq,
  if-cases,
}
use umsftpd.Server.{
  Handle, Event, subsystem_requested, password_given, channel_requested, Action, open_if_none,
  subsystem_request, auth_password, channel_open, callback, poll, is_some,
}
use umsftpd.Server.Protocol.{
  Progress, log_in, open_channel, accept_subsystem, Steps, stop, go, Steps-append,
}

-- The handle is what the observer knows.
pub record Agrees (handle : Handle) (s : Progress) : Type 0 where
  pub password : s.password ≡ handle.authenticated
  pub channel : s.channel ≡ is_some handle.channel
  pub subsystem : s.subsystem ≡ handle.sftp_requested
  pub created : s.created ≡ handle.sftp

-- Actions of the callbacks: they leave the SFTP session alone, and take neither login nor channel back.
pub record Calls (s : Progress) (result : Handle × List Action) : Type 0 where
  pub next : Progress
  pub steps : Steps s result.1 next
  pub agrees : Agrees result.0 next
  pub still_in : s.password ≡ true → next.password ≡ true
  pub still_open : s.channel ≡ true → next.channel ≡ true
  pub still_requested : s.subsystem ≡ true → next.subsystem ≡ true
  pub same_initialized : next.initialized ≡ s.initialized
  pub same_created : next.created ≡ s.created

nothing-Calls : (handle : Handle) (s : Progress) → Agrees handle s → Calls s (handle, [])
nothing-Calls handle s agrees = record {
  next = s;
  steps = stop;
  agrees = agrees;
  still_in = λ h. h;
  still_open = λ h. h;
  still_requested = λ h. h;
  same_initialized = refl;
  same_created = refl;
}

subsystem_request-Calls :
    (handle : Handle) (s : Progress) (subsystem : Bytes)
    → Agrees handle s
    → s.password ≡ true
    → s.channel ≡ true
    → Calls s (subsystem_request handle subsystem)
unfolding subsystem_request
subsystem_request-Calls handle s subsystem agrees p c =
    if-cases (Calls s) (str_eq subsystem (codes "sftp"))
      (λ _. record {
        next = record s { subsystem = true };
        steps = go (accept_subsystem p c) stop;
        agrees = record {
          password = agrees.password;
          channel = agrees.channel;
          subsystem = refl;
          created = agrees.created;
        };
        still_in = λ h. h;
        still_open = λ h. h;
        still_requested = λ _. refl;
        same_initialized = refl;
        same_created = refl;
      })
      (λ _. nothing-Calls handle s agrees)

auth_password-Calls :
    (handle : Handle) (s : Progress) (user pass : Bytes)
    → Agrees handle s
    → Calls s (auth_password handle user pass)
unfolding auth_password
auth_password-Calls handle s user pass agrees = record {
  next = record s { password = true };
  steps = go log_in stop;
  agrees = record {
    password = refl;
    channel = agrees.channel;
    subsystem = agrees.subsystem;
    created = agrees.created;
  };
  still_in = λ _. refl;
  still_open = λ h. h;
  still_requested = λ h. h;
  same_initialized = refl;
  same_created = refl;
}

open_if_none-Calls :
    (handle : Handle) (s : Progress) (new channel : Option ℕ)
    → Agrees handle s
    → s.channel ≡ is_some channel
    → Calls s (open_if_none handle new channel)
open_if_none-Calls handle s new (some channel) agrees e = nothing-Calls handle s agrees
open_if_none-Calls handle s none none agrees e = record {
  next = s;
  steps = stop;
  agrees = record {
    password = agrees.password;
    channel = e;
    subsystem = agrees.subsystem;
    created = agrees.created;
  };
  still_in = λ h. h;
  still_open = λ h. h;
  still_requested = λ h. h;
  same_initialized = refl;
  same_created = refl;
}
open_if_none-Calls handle s (some channel) none agrees e = record {
  next = record s { channel = true };
  steps = go (open_channel e) stop;
  agrees = record {
    password = agrees.password;
    channel = refl;
    subsystem = agrees.subsystem;
    created = agrees.created;
  };
  still_in = λ h. h;
  still_open = λ _. refl;
  still_requested = λ h. h;
  same_initialized = refl;
  same_created = refl;
}

-- The callbacks of a channel are only set where there are login and channel.
abbrev Armed : Bool → Progress → Type 0
Armed channel_callbacks s = channel_callbacks ≡ true → (s.password ≡ true) × (s.channel ≡ true)

callback-Calls :
    (channel_callbacks : Bool) (handle : Handle) (s : Progress) (event : Event)
    → Agrees handle s
    → Armed channel_callbacks s
    → Calls s (callback channel_callbacks handle event)
unfolding channel_open
callback-Calls true handle s (subsystem_requested subsystem) agrees armed =
    subsystem_request-Calls handle s subsystem agrees (armed refl).0 (armed refl).1
callback-Calls false handle s (subsystem_requested subsystem) agrees armed =
    nothing-Calls handle s agrees
callback-Calls channel_callbacks handle s (password_given user pass) agrees armed =
    auth_password-Calls handle s user pass agrees
callback-Calls channel_callbacks handle s (channel_requested new) agrees armed =
    open_if_none-Calls handle s new handle.channel agrees agrees.channel

pub poll-Calls :
    (channel_callbacks : Bool) (handle : Handle) (s : Progress) (events : List Event)
    → Agrees handle s
    → Armed channel_callbacks s
    → Calls s (poll channel_callbacks handle events)
unfolding poll
poll-Calls channel_callbacks handle s [] agrees armed = nothing-Calls handle s agrees
poll-Calls channel_callbacks handle s (event ∷ events) agrees armed =
    let first = callback-Calls channel_callbacks handle s event agrees armed in
    let rest =
      poll-Calls channel_callbacks (callback channel_callbacks handle event).0 first.next events
        first.agrees (λ h. (first.still_in (armed h).0, first.still_open (armed h).1)) in
    record {
      next = rest.next;
      steps = Steps-append first.steps rest.steps;
      agrees = rest.agrees;
      still_in = λ h. rest.still_in (first.still_in h);
      still_open = λ h. rest.still_open (first.still_open h);
      still_requested = λ h. rest.still_requested (first.still_requested h);
      same_initialized = rest.same_initialized ∙ first.same_initialized;
      same_created = rest.same_created ∙ first.same_created;
    }
