-- ===== src/Gateway/Cleanup.antt =====
-- What a step of a stream does to the pool: nothing, or, when the handler returns, the deferred
-- Dequeue.
use fp_insis.Prelude.{
  ℕ, ◌≤◌, ◌≡◌, refl, ap, subst, sym, ◌∙◌, inl, inr, Bool, true, false, none, List, String, arith,
  if◌then◌else◌, ◌==◌, string_eq, nat_eq, ℤ, get, All, All-map,
}
use fp_insis.Chan.{Chans, is_open, recv_cases, try_send_open, SameShape, buffer_of}
use fp_insis.Pool.{QueuedPlayer, Lobby, MatchEvent}
use fp_insis.Pool.Queueing.{IsSafe, dequeue_lem}
use fp_insis.Pb.{GatewayResponse}
use fp_insis.Status.{Reply}
use fp_insis.Gateway.{Phase, searching, ready_checking, awaiting, returned, Stream, World}
use fp_insis.Gateway.Loop.{Next, add_sent, blocked, next, leave, on_match, answer}

abbrev pub has_returned : Phase → Bool
has_returned searching = false
has_returned (ready_checking evt) = false
has_returned (awaiting evt) = false
has_returned (returned r) = true

-- The response channel of an event can be sent to.
abbrev pub Answerable : Chans Bool → MatchEvent → Type 0
Answerable h evt = is_open evt.response_ch h ≡ true

abbrev pub PhaseAnswerable : Chans Bool → Phase → Type 0
PhaseAnswerable h searching = Unit {0}
PhaseAnswerable h (ready_checking evt) = Answerable h evt
PhaseAnswerable h (awaiting evt) = Unit {0}
PhaseAnswerable h (returned r) = Unit {0}

-- The lobby is in good order, and the events that wait for the player, or that is being answered,
-- have open response channels.
pub record IsSound (w : World) (s : Stream) : Type 0 where
  pub safe : IsSafe w.lobby
  pub waiting : All (Answerable w.bools) (buffer_of s.qp.match_ch w.lobby.chans)
  pub current : PhaseAnswerable w.bools s.phase

-- A step that is not taken; one that leaves the pool's players alone; a return, after which the
-- player, and nobody else, is out of the pool.
pub data Outcome (w : World) (s : Stream) : Next → Type 0 where
  stays : Outcome w s blocked
  goes :
      (w' : World) (s' : Stream)
      → IsSound w' s'
      → s'.qp ≡ s.qp
      → has_returned s'.phase ≡ has_returned s.phase
      → ((j : String) → get j w'.lobby.pool.players ≡ get j w.lobby.pool.players)
      → Outcome w s (next w' s')
  leaves :
      (w' : World) (s' : Stream)
      → IsSafe w'.lobby
      → s'.qp ≡ s.qp
      → has_returned s'.phase ≡ true
      → ((j : String)
          → get j w'.lobby.pool.players
            ≡ (if s.qp.player_id == j then none else get j w.lobby.pool.players))
      → Outcome w s (next w' s')

-- A stream that changed nothing but what it sent, from a world with the same players.
pub leave_lem :
    (r : Reply (Unit {0})) (w w' : World) (s s' : Stream)
    → IsSafe w'.lobby
    → s'.qp ≡ s.qp
    → ((j : String) → get j w'.lobby.pool.players ≡ get j w.lobby.pool.players)
    → Outcome w s (leave r w' s')
unfolding leave
leave_lem r w w' s s' safe same keep =
    let (l', d, safe', g) = dequeue_lem s'.qp.player_id w'.lobby safe in
    rw (d, leave)
      (leaves _ _ safe' same refl (λ j.
        g j
        ∙ ap (λ x. if s'.qp.player_id == j then none else x) (keep j)
        ∙ ap (λ (q : QueuedPlayer). if q.player_id == j then none else get j w.lobby.pool.players)
            same))

-- Receiving from a player's channel keeps the lobby in good order.
pub recv-IsSafe :
    (l : Lobby) (g : Chans MatchEvent)
    → IsSafe l
    → SameShape l.chans g
    → IsSafe (record l { chans = g })
recv-IsSafe l g s x = record {
  valid = s.valid;
  open_chs = λ i q h. x.open_as q.match_ch ∙ s.open_chs i q h;
  apart = s.apart;
  unmade = λ (n : ℕ) (le : g.next ≤ n). x.none_as n (s.unmade n (omega (arith, x.next, le)));
}

pub still-Answerable :
    (h g : Chans Bool) (l : List MatchEvent)
    → SameShape h g
    → All (Answerable h) l
    → All (Answerable g) l
still-Answerable h g l x =
    All-map (Answerable h) (Answerable g) l (λ evt o. x.open_as evt.response_ch ∙ o)

pub sent_qp :
    (sends : Bool) (m : GatewayResponse) (s : Stream)
    → (if sends then add_sent m s else s).qp ≡ s.qp
sent_qp true m s = refl
sent_qp false m s = refl

pub either :
    (b : Bool) (w : World) (s : Stream) (x y : Next)
    → Outcome w s x
    → Outcome w s y
    → Outcome w s (if b then x else y)
either true w s x y ox oy = ox
either false w s x y ox oy = oy

pub on_match_lem :
    (now : ℤ) (sends : Bool) (w : World) (s : Stream)
    → IsSound w s
    → s.phase ≡ searching
    → Outcome w s (on_match now sends w s)
unfolding on_match
on_match_lem now sends w s k p = elim (recv_cases s.qp.match_ch w.lobby.chans) [
  | inl e ↦ rw (e, on_match) stays
  | inr (inl e) ↦ rw (e, on_match) (leave_lem _ w w s _ k.safe (sent_qp sends _ s) (λ j. refl))
  | inr (inr (evt, g, e, x, b)) ↦
      let safe' = recv-IsSafe w.lobby g k.safe x in
      let all = subst (All (Answerable w.bools)) b k.waiting in
      rw (e, on_match)
        (either sends w s _ _
          (goes _ _ (record { safe = safe'; waiting = all.1; current = all.0 }) refl
            (ap has_returned (sym p)) (λ j. refl))
          (leave_lem _ w _ s s safe' refl (λ j. refl)))
]

pub answer_lem :
    (now : ℤ) (sends accepted : Bool) (evt : MatchEvent) (w : World) (s s1 : Stream)
    → IsSound w s
    → s.phase ≡ ready_checking evt
    → s1.qp ≡ s.qp
    → Outcome w s (answer now sends accepted evt w s1)
unfolding answer
answer_lem now sends accepted evt w s s1 k p same =
    let (g, b, e, x) =
      try_send_open evt.response_ch accepted w.bools
        (subst (PhaseAnswerable w.bools) p k.current) in
    rw (e, answer)
      (either accepted w s _ _
        (goes _ _
          (record {
            safe = k.safe;
            waiting = rw same (still-Answerable w.bools g _ x k.waiting);
            current = tt;
          })
          same (ap has_returned (sym p)) (λ j. refl))
        (leave_lem _ w _ s _ k.safe (sent_qp sends _ s1 ∙ same) (λ j. refl)))
