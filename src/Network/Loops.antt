-- ===== src/Network/Loops.antt =====
-- `run_accept_loop` and `run_command_loop` of src/network.rs, the tasks that they spawn one after the
-- other. What QUIC makes of a connection, before its session, is an argument.
use opencord.Base.{
  ℕ, ◌==◌, ◌≡◌, refl, false, List, [], ◌∷◌, ◌++◌, any, if◌then◌else◌, Result, ok, err, Error,
  Result-cases, inl, inr, arith,
}
use opencord.Text.{Text, codes}
use opencord.Network.State.{note, last_twelve, bump}
use opencord.Network.Task.{Context, Task, ◌>>=◌, lift}
use opencord.Network.Live.{Input}
use opencord.Network.Session.{run_session}
use opencord.Network.Session.Ends.{is_closed, run_session-closed}

module _ (x : Context) (show_error : Error → Text) where
  abbrev pub failure_line : Error → Text
  failure_line e =
      codes "Could not connect to "
      ++ (x.net.show_address x.remote_address ++ (codes ": " ++ show_error e))

  -- `if let Err(error) = result`
  abbrev pub note_failure : Result (Unit {0}) → Task → Task
  note_failure (ok done) t = t
  note_failure (err e) t = record t { state = note (failure_line e) t.state }

  -- The task of an incoming connection; an error is only logged.
  unfoldable pub accept_one : Result (Unit {0}) → ℕ → List Input → Task → Task
  accept_one accepted port inputs t = ((lift accepted >>= λ _. run_session x port inputs) t).1

  -- A command to connect to `x.remote_address`, and the task for it.
  unfoldable pub connect_one : Result (Unit {0}) → ℕ → List Input → Task → Task
  connect_one opened port inputs t =
      if x.remote_address == t.state.listen_address
      then t
      else (let (result, t') = (lift opened >>= λ _. run_session x port inputs) t in
          note_failure result t')

  -- An outgoing connection, not to the address that the node listens on, that was opened and had
  -- its session ends with an error, and the status then ends with the line that says that it could
  -- not be made, unless the node closed its own queue of live events.
  pub connect_one-noted :
      (port : ℕ) (inputs : List Input) (t : Task)
      → (x.remote_address == t.state.listen_address) ≡ false
      → any is_closed inputs ≡ false
      → (e : Error) × ((run_session x port inputs t).0 ≡ err e)
        × ((connect_one (ok tt) port inputs t).state.status
            ≡ last_twelve ((run_session x port inputs t).1.state.status ++ failure_line e ∷ []))
  unfolding connect_one ◌>>=◌ lift note bump
  connect_one-noted port inputs t other still_open =
      elim (Result-cases (run_session x port inputs t).0) [
        | inl (done, fine) ↦
            absurd (ground (arith, run_session-closed x port inputs t fine, still_open))
        | inr (e, failed) ↦ (e, failed, rw (other, failed) refl)
      ]
