-- ===== src/Server/Listen.antt =====
-- main.c: `_handle_session` and `start_server`, with the objects of libssh that they make and free.
use umsftpd.Prelude.{
  ℕ, ◌+◌, ◌%◌, ◌^◌, ◌≡◌, refl, Bool, true, false, not, ◌||◌, ◌&&◌, ◌-◌, ◌==◌, List, [], ◌∷◌, ◌++◌,
  Option, none, some, if◌then◌else◌,
}
use umsftpd.Server.{Turn, Run, handle_session}

-- What happens to the objects of a connection, and the session that it has.
pub data Deed : Type 0 where
  made_session made_event freed_event disconnected freed_session : Deed
  served : Run → Deed

-- A connection: whether its objects can be made, whether it is accepted, and how its session goes.
pub record Connection : Type 0 where
  pub session_new : Bool
  pub event_new : Bool
  pub accepts : Bool
  pub key_exchange : Bool
  pub turns : List Turn

abbrev pub free_all : List Deed
free_all = freed_event ∷ disconnected ∷ freed_session ∷ []

-- `_handle_session`, whose sessions are numbered in an `unsigned int`.
unfoldable pub serve_connection : ℕ → Connection → List Deed
serve_connection hid connection =
    served (handle_session hid connection.key_exchange connection.turns) ∷ free_all

-- The loop of `start_server`, with the last number given: what it does, and its result unless it goes on.
unfoldable pub accept_loop : ℕ → List Connection → List Deed × Option Bool
accept_loop hid [] = ([], none)
accept_loop hid (connection ∷ connections) =
    let next_hid = (hid + 1) % 2 ^ 32 in
    let after_session = accept_loop next_hid connections in
    let after_error = accept_loop hid connections in
    if not connection.session_new
    then ([], some true)
    else if not connection.event_new
    then (made_session ∷ [], some true)
    else if connection.accepts
    then (
      made_session ∷ made_event ∷ serve_connection next_hid connection ++ after_session.0,
      after_session.1,
    )
    else (made_session ∷ made_event ∷ free_all ++ after_error.0, after_error.1)

-- `start_server`, by the results of `ssh_init`, `ssh_bind_new` and `ssh_bind_listen`.
unfoldable pub start_server : Bool → Bool → Bool → List Connection → List Deed × Option Bool
start_server init bind_new listen connections =
    if not init
    then ([], some false)
    else if not bind_new
    then ([], some false)
    else if not listen
    then ([], some true)
    else accept_loop 0 connections

-- The objects in use: sessions and events.
pub record Held : Type 0 where
  pub sessions : ℕ
  pub events : ℕ

-- The objects that are in use behind some deeds; `none` when one is freed that is not in use.
unfoldable pub held : Held → List Deed → Option Held
held h [] = some h
held h (made_session ∷ deeds) = held (record h { sessions = h.sessions + 1 }) deeds
held h (made_event ∷ deeds) = held (record h { events = h.events + 1 }) deeds
held h (freed_event ∷ deeds) =
    let rest = held (record h { events = h.events - 1 }) deeds in
    if h.events == 0 then none else rest
held h (freed_session ∷ deeds) =
    let rest = held (record h { sessions = h.sessions - 1 }) deeds in
    if h.sessions == 0 then none else rest
held h (disconnected ∷ deeds) = let rest = held h deeds in if h.sessions == 0 then none else rest
held h (served run ∷ deeds) =
    let rest = held h deeds in if h.sessions == 0 || h.events == 0 then none else rest

abbrev pub nothing : Held
nothing = record { sessions = 0; events = 0 }

-- What is left behind: nothing, or the one session for which no event could be made.
abbrev pub leaked : List Connection → ℕ
leaked [] = 0
leaked (connection ∷ connections) =
    let rest = leaked connections in
    if not connection.session_new then 0 else if connection.event_new then rest else 1

accept_loop-held :
    (hid : ℕ) (connections : List Connection)
    → held nothing (accept_loop hid connections).0
      ≡ some (record { sessions = leaked connections; events = 0 })
unfolding accept_loop held serve_connection
accept_loop-held hid [] = refl
accept_loop-held hid (connection ∷ connections) =
    let next_hid = (hid + 1) % 2 ^ 32 in
    cases connection.session_new connection.event_new connection.accepts
      (accept_loop next_hid connections) (accept_loop hid connections)
      (accept_loop-held next_hid connections) (accept_loop-held hid connections)
  where
    run : Run
    run = handle_session ((hid + 1) % 2 ^ 32) connection.key_exchange connection.turns

    cases :
        (s e a : Bool) (after_session after_error : List Deed × Option Bool)
        → held nothing after_session.0 ≡ some (record { sessions = leaked connections; events = 0 })
        → held nothing after_error.0 ≡ some (record { sessions = leaked connections; events = 0 })
        → (let result : List Deed × Option Bool =
              if not s
              then ([], some true)
              else if not e
              then (made_session ∷ [], some true)
              else if a
              then (
                made_session ∷ made_event ∷ (served run ∷ free_all) ++ after_session.0,
                after_session.1,
              )
              else (made_session ∷ made_event ∷ free_all ++ after_error.0, after_error.1) in
            held nothing result.0
            ≡ some (record {
              sessions = if not s then 0 else if e then leaked connections else 1;
              events = 0;
            }))
    cases false e a x y hx hy = refl
    cases true false a x y hx hy = refl
    cases true true true x y hx hy = hx
    cases true true false x y hx hy = hy

-- Every session and event that the server makes is freed exactly once and not used afterwards, whether
-- the connection is accepted or not, but for one: where no event can be made, the session made just
-- before stays, and the server ends.
pub start_server-held :
    (init bind_new listen : Bool) (connections : List Connection)
    → held nothing (start_server init bind_new listen connections).0
      ≡ some (record {
        sessions = if init && bind_new && listen then leaked connections else 0;
        events = 0;
      })
unfolding start_server held
start_server-held false bind_new listen connections = refl
start_server-held true false listen connections = refl
start_server-held true true false connections = refl
start_server-held true true true connections = accept_loop-held 0 connections
