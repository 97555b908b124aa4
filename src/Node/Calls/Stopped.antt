-- ===== src/Node/Calls/Stopped.antt =====
-- node.go: a node after Close.
use coded_hotterstuff.Prelude.{◌≡◌, refl, ◌∙◌, Bool, true, some, arith}
use coded_hotterstuff.Exec.{ok}
use coded_hotterstuff.Types.{Message}
use coded_hotterstuff.Env.{Env}
use coded_hotterstuff.Node.{Node, Event}
use coded_hotterstuff.Node.New.{Data}
use coded_hotterstuff.Node.Calls.{
  Reply, err_stopped, Choice, by_context, by_quit, by_channel, Channels, new_channels, step_call,
  send_call, start_call, close_call, Served, Source, from_start, from_received, from_send,
  from_loop, next_event, Happens, stepped, sent, opened, closed, looped, ended, Serves, idle,
  then_happens,
}

-- The two channels that end a node: one that is closed stays closed, and `done` comes after `quit`.
record Closes (ch ch' : Channels) : Type 0 where
  quit : ch.quit ≡ true → ch'.quit ≡ true
  done : ch'.done ≡ ch.done

step_call-Closes :
    (choice : Choice) (ctx : Bool) (m : Message) (r : Reply) (ch ch' : Channels)
    → step_call choice ctx m ch ≡ some (r, ch')
    → Closes ch ch'
unfolding step_call
step_call-Closes by_context ctx m r ch ch' h = record {
  quit = λ q. ground arith;
  done = ground arith;
}
step_call-Closes by_quit ctx m r ch ch' h = record { quit = λ q. ground arith; done = ground arith }
step_call-Closes by_channel ctx m r ch ch' h = record {
  quit = λ q. ground arith;
  done = ground arith;
}

send_call-Closes :
    (choice : Choice) (ctx : Bool) (x : Data) (r : Reply) (ch ch' : Channels)
    → send_call choice ctx x ch ≡ some (r, ch')
    → Closes ch ch'
unfolding send_call
send_call-Closes by_context ctx x r ch ch' h = record {
  quit = λ q. ground arith;
  done = ground arith;
}
send_call-Closes by_quit ctx x r ch ch' h = record { quit = λ q. ground arith; done = ground arith }
send_call-Closes by_channel ctx x r ch ch' h = record {
  quit = λ q. ground arith;
  done = ground arith;
}

start_call-Closes : (ch ch' : Channels) → start_call ch ≡ ok ch' → Closes ch ch'
unfolding start_call
start_call-Closes ch ch' h = record { quit = λ q. ground arith; done = ground arith }

close_call-Closes : (ch ch' : Channels) → close_call ch ≡ ok ch' → Closes ch ch'
unfolding close_call
close_call-Closes ch ch' h = record { quit = λ q. ground arith; done = ground arith }

next_event-Closes :
    (env : Env) (from : Source env) (e : Event) (ch ch' : Channels)
    → next_event env from ch ≡ some (e, ch')
    → Closes ch ch'
unfolding next_event
next_event-Closes env from_start e ch ch' h = record {
  quit = λ q. ground arith;
  done = ground arith;
}
next_event-Closes env from_received e ch ch' h = record {
  quit = λ q. ground arith;
  done = ground arith;
}
next_event-Closes env from_send e ch ch' h = record {
  quit = λ q. ground arith;
  done = ground arith;
}
next_event-Closes env (from_loop o) e ch ch' h = record {
  quit = λ q. ground arith;
  done = ground arith;
}

module _ (env : Env) where
  record IsEnding (s : Served env) : Type 0 where
    after_quit : s.channels.done ≡ true → s.channels.quit ≡ true

  Closes-IsEnding :
      (s : Served env) (n : Node env) (ch : Channels)
      → IsEnding s
      → Closes s.channels ch
      → IsEnding (record s { node = n; channels = ch })
  Closes-IsEnding s n ch h c = record { after_quit = λ d. c.quit (h.after_quit (rw c.done at d)) }

  Happens-IsEnding : (s t : Served env) → IsEnding s → Happens env s t → IsEnding t
  Happens-IsEnding s _ h (stepped choice ctx m r ch p) =
      Closes-IsEnding s s.node ch h (step_call-Closes choice ctx m r s.channels ch p)
  Happens-IsEnding s _ h (sent choice ctx x r ch p) =
      Closes-IsEnding s s.node ch h (send_call-Closes choice ctx x r s.channels ch p)
  Happens-IsEnding s _ h (opened ch p) =
      Closes-IsEnding s s.node ch h (start_call-Closes s.channels ch p)
  Happens-IsEnding s _ h (closed ch p) =
      Closes-IsEnding s s.node ch h (close_call-Closes s.channels ch p)
  Happens-IsEnding s _ h (looped from e ch n going p q) =
      Closes-IsEnding s n ch h (next_event-Closes env from e s.channels ch p)
  Happens-IsEnding s _ h (ended going quit) = record { after_quit = λ d. quit }

  Serves-IsEnding : (s : Served env) {t : Served env} → IsEnding s → Serves env s t → IsEnding t
  Serves-IsEnding s h idle = h
  Serves-IsEnding s h (then_happens {t = t} {u = u} serves p) =
      Happens-IsEnding t u (Serves-IsEnding s h serves) p

  record Rests (n : Node env) (s : Served env) : Type 0 where
    same : s.node ≡ n
    done : s.channels.done ≡ true

  Happens-Rests : (n : Node env) (s t : Served env) → Rests n s → Happens env s t → Rests n t
  Happens-Rests n s _ h (stepped choice ctx m r ch p) = record {
    same = h.same;
    done = (step_call-Closes choice ctx m r s.channels ch p).done ∙ h.done;
  }
  Happens-Rests n s _ h (sent choice ctx x r ch p) = record {
    same = h.same;
    done = (send_call-Closes choice ctx x r s.channels ch p).done ∙ h.done;
  }
  Happens-Rests n s _ h (opened ch p) = record {
    same = h.same;
    done = (start_call-Closes s.channels ch p).done ∙ h.done;
  }
  Happens-Rests n s _ h (closed ch p) = record {
    same = h.same;
    done = (close_call-Closes s.channels ch p).done ∙ h.done;
  }
  Happens-Rests n s _ h (looped from e ch m going p q) = absurd (cc (going, h.done))
  Happens-Rests n s _ h (ended going quit) = absurd (cc (going, h.done))

  Serves-Rests :
      (s : Served env) {t : Served env} → s.channels.done ≡ true → Serves env s t → Rests s.node t
  Serves-Rests s h idle = record { same = refl; done = h }
  Serves-Rests s h (then_happens {t = t} {u = u} serves p) =
      Happens-Rests s.node t u (Serves-Rests s h serves) p

  -- Once Close has come back, that is, once the loop has closed `done`: whatever calls follow, the
  -- node stays as it is, and every call of Step and Send, whatever its context, can return ErrStopped
  -- at once.
  pub stopped_for_good :
      (n : Node env) (t u : Served env)
      → Serves env (record { node = n; channels = new_channels }) t
      → t.channels.done ≡ true
      → Serves env t u
      → (u.node ≡ t.node)
        × ((ctx : Bool) (m : Message)
            → step_call by_quit ctx m u.channels ≡ some (err_stopped, u.channels))
        × ((ctx : Bool) (x : Data)
            → send_call by_quit ctx x u.channels ≡ some (err_stopped, u.channels))
  stopped_for_good n t u before done after =
      let start : IsEnding (record { node = n; channels = new_channels }) =
        unfold new_channels in record { after_quit = λ d. cc d } in
      let rests = Serves-Rests t done after in
      let ending =
        Serves-IsEnding t
          (Serves-IsEnding (record { node = n; channels = new_channels }) start before) after in
      let quit = ending.after_quit rests.done in
      (
        rests.same,
        λ ctx m. unfold step_call in rw quit refl,
        λ ctx x. unfold send_call in rw quit refl,
      )
