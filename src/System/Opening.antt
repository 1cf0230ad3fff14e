-- ===== src/System/Opening.antt =====
-- The room that a round opens, beside the coordinators and streams that are there.
use fp_insis.Prelude.{
  ℕ, ◌≤◌, ◌<◌, ◌≡◌, refl, ap, sym, ◌∙◌, subst, ◌≢◌, inl, inr, true, false, none, some, List, [],
  ◌∷◌, arith, get, All, All-map, All-both, nat_eq, string_eq, nat_beq, nat_beq_iff, Bool-cases,
}
use fp_insis.Runtime.{Floats}
use fp_insis.Chan.{Chans, is_open, buffer_of, SameShape}
use fp_insis.Pool.{QueuedPlayer, Pool, Lobby, MatchEvent, has_id}
use fp_insis.Pool.Channels.{Free, drawn-Free, drawn_freed}
use fp_insis.Pool.Contract.Aside.{have_ids}
use fp_insis.Pool.Extract.{extract_match}
use fp_insis.Pool.Extract.Match.{extract_some}
use fp_insis.Coordinator.{ids_of}
use fp_insis.Coordinator.Verdict.{is_one_of}
use fp_insis.Matchmaker.{Round, Room, Engine, open_room}
use fp_insis.Matchmaker.Rooms.{MadeFresh, notify_lem}
use fp_insis.Matchmaker.Opening.{Ticked, IsOpened}
use fp_insis.Gateway.{Stream}
use fp_insis.System.Apart.{held, Separate}
use fp_insis.System.Moves.{Good}
use fp_insis.System.Coords.{channels_of}
use fp_insis.System.Shared.{IsShared, StreamGood-map}
use fp_insis.System.Rounds.{
  All-is_one_of, is_one_of-none, notify-All, responses_apart, open_room_parts,
  channels_of-NumbersDistinct,
}

-- A free channel, after sends.
sent-Free :
    (l : Lobby) (g : Chans MatchEvent) (c : ℕ)
    → SameShape l.chans g
    → Free l c
    → Free (record l { chans = g }) c
sent-Free l g c x f = record { opened = x.open_as c ∙ f.opened; unused = f.unused }

-- A number of one of the players' channels.
All-channels_of :
    (P : ℕ → Type 0) (qs : List QueuedPlayer) (n : ℕ)
    → All (λ q. P q.match_ch) qs
    → is_one_of n (channels_of qs) ≡ true
    → P n
All-channels_of P [] n h e = absurd (cc)
All-channels_of P (q ∷ qs) n h e = elim (Bool-cases (nat_beq q.match_ch n)) [
  | inl same ↦ subst P ((nat_beq_iff q.match_ch n).0 same) h.0
  | inr other ↦ All-channels_of P qs n h.1 (ground arith)
]

module _ (fl : Floats) (r : Round) (us ls : List (List ℕ)) (e : Engine) (streams : List Stream)
    (ok : IsShared us ls e streams) (pool' : Pool) (sel : List QueuedPlayer)
    (extracted : extract_match fl r.env e.lobby.pool ≡ (pool', some sel)) where
  made_before : (n : ℕ) → get n e.bools.cells ≢ none → n < e.bools.next
  made_before n there = ground (arith, ok.unmade n)

  held_before : (n : ℕ) → held us n ≡ true → n < e.bools.next
  held_before n h = made_before n (λ x. let f = ok.untold_fresh n h in cc)

  not_held : (n : ℕ) → e.bools.next ≤ n → held us n ≡ false
  not_held n le = elim (Bool-cases (held us n)) [
    | inl yes_held ↦ absurd (omega (arith, held_before n yes_held))
    | inr no_held ↦ no_held
  ]

  module _ (e' : Engine) (room : Room) (opened : open_room r sel pool' e ≡ some (e', room))
      (pool_is : e'.lobby.pool ≡ pool') (sel_is : room.players ≡ sel)
      (t : Ticked e e' (room ∷ [])) where
    o : IsOpened e.bools e'.bools room
    o = t.opened.0

    not_result : (n : ℕ) → n < e.bools.next → is_one_of n room.result_chs ≡ false
    not_result n lt =
        is_one_of-none (MadeFresh e.bools e'.bools) room.result_chs n o.fresh_results
          (λ m. omega (arith, m.0))

    sent_shape : SameShape e.lobby.chans e'.lobby.chans
    sent_shape =
        let (m, _, _, _) = extract_some fl r.env e.lobby.pool ok.safe.valid pool' sel extracted in
        let (g, n, x) =
          notify_lem r.session_id (ids_of sel) r.now sel room.response_chs room.result_chs
            e.lobby.chans
            (All-map (λ q. get q.player_id e.lobby.pool.players ≡ some q)
              (λ q. is_open q.match_ch e.lobby.chans ≡ true) sel
              (λ q h. ok.safe.open_chs q.player_id q h) m.queued) in
        let (parts, _, _) = open_room_parts r sel pool' e e' room opened in
        let same : g ≡ e'.lobby.chans = some_injective g e'.lobby.chans (sym n ∙ parts) in
        subst (SameShape e.lobby.chans) same x
      where
        some_injective : (x y : Chans MatchEvent) → some x ≡ some y → x ≡ y
        some_injective x y e = cc

    after-Free : (c : ℕ) → Free (record e.lobby { pool = pool' }) c → Free e'.lobby c
    after-Free c f = record {
      opened = sent_shape.open_as c ∙ f.opened;
      unused = λ i q h. f.unused i q (ap (λ (p : Pool). get i p.players) (sym pool_is) ∙ h);
    }

    lent-Free : (n : ℕ) → held (channels_of room.players ∷ ls) n ≡ true → Free e'.lobby n
    lent-Free n h =
        let (m, valid, sized, left) =
          extract_some fl r.env e.lobby.pool ok.safe.valid pool' sel extracted in
        after-Free n (elim (Bool-cases (is_one_of n (channels_of room.players))) [
          | inl mine ↦
              All-channels_of (Free (record e.lobby { pool = pool' })) room.players n
                (rw sel_is (
                  All-map
                    (λ q.
                      (get q.player_id e.lobby.pool.players ≡ some q)
                      × (has_id q.player_id sel ≡ true))
                    (λ q. Free (record e.lobby { pool = pool' }) q.match_ch) sel
                    (λ q (here, out). drawn_freed e.lobby pool' sel left q ok.safe here out)
                    (All-both _ _ sel m.queued (have_ids sel))))
                mine
          | inr other ↦ drawn-Free e.lobby pool' sel left n (ok.lent_free n (ground arith))
        ])

    queued_not_lent :
        (q : QueuedPlayer)
        → get q.player_id e.lobby.pool.players ≡ some q
        → held ls q.match_ch ≡ false
    queued_not_lent q h = elim (Bool-cases (held ls q.match_ch)) [
      | inl lent ↦ absurd ((ok.lent_free q.match_ch lent).unused q.player_id q h refl)
      | inr no_lent ↦ no_lent
    ]

    lent_apart : Separate (channels_of room.players ∷ ls)
    lent_apart =
        let (m, valid, sized, left) =
          extract_some fl r.env e.lobby.pool ok.safe.valid pool' sel extracted in
        (
          rw sel_is (channels_of-NumbersDistinct e.lobby ok.safe sel m.distinct m.queued),
          λ n h.
              All-channels_of (λ c. held ls c ≡ false) room.players n
                (rw sel_is (
                  All-map (λ q. get q.player_id e.lobby.pool.players ≡ some q)
                    (λ q. held ls q.match_ch ≡ false) sel queued_not_lent m.queued))
                h,
          ok.lent_apart,
        )

    still-Good :
        (evt : MatchEvent)
        → Good (held us) e.bools evt
        → Good (held (room.result_chs ∷ us)) e'.bools evt
    still-Good evt g =
        let lt = made_before evt.response_ch (λ x. let op = g.opened in ground arith) in
        record {
          opened = rw (t.bools.kept evt.response_ch lt, is_open) g.opened;
          other = ground (arith, not_result evt.response_ch lt, g.other);
        }

    new-Good :
        All
          (λ n.
            (evt : MatchEvent)
            → evt.response_ch ≡ n
            → Good (held (room.result_chs ∷ us)) e'.bools evt)
          room.response_chs
    new-Good =
        let (_, rs, cs) = open_room_parts r sel pool' e e' room opened in
        let apart : All (λ n. is_one_of n room.result_chs ≡ false) room.response_chs =
          rw (rs, cs) (responses_apart sel e.bools ok.unmade) in
        All-map (λ n. MadeFresh e.bools e'.bools n × (is_one_of n room.result_chs ≡ false)) _
          room.response_chs
          (λ n (m, a) evt is_n. record {
            opened = rw (is_n, m.2, is_open) refl;
            other = rw is_n (ground (arith, a, not_held n m.0));
          })
          (All-both _ _ room.response_chs o.fresh_responses apart)

    pub opened-IsShared : IsShared (room.result_chs ∷ us) (channels_of room.players ∷ ls) e' streams
    opened-IsShared = record {
      safe = t.safe;
      unmade = t.bools.unmade;
      untold_apart = (
        o.distinct,
        λ n h.
            not_held n
              (All-is_one_of (MadeFresh e.bools e'.bools) room.result_chs n o.fresh_results h).0,
        ok.untold_apart,
      );
      untold_fresh = λ n h. elim (Bool-cases (is_one_of n room.result_chs)) [
        | inl new ↦
            (All-is_one_of (MadeFresh e.bools e'.bools) room.result_chs n o.fresh_results new).2
        | inr old ↦
            let was : held us n ≡ true = ground arith in
            t.bools.kept n (held_before n was) ∙ ok.untold_fresh n was
      ];
      lent_apart = lent_apart;
      lent_free = lent-Free;
      events = λ c.
          notify-All (Good (held (room.result_chs ∷ us)) e'.bools) r.session_id (ids_of sel) r.now
            sel room.response_chs room.result_chs e.lobby.chans e'.lobby.chans c
            (open_room_parts r sel pool' e e' room opened).0 new-Good
            (All-map (Good (held us) e.bools) (Good (held (room.result_chs ∷ us)) e'.bools)
              (buffer_of c e.lobby.chans) still-Good (ok.events c));
      good =
          StreamGood-map (held us) (held (room.result_chs ∷ us)) e.bools e'.bools streams still-Good
            ok.good;
    }
