-- ===== src/Tracker/Summaries.antt =====
-- What GetSession of internal/services/tracker.go reports.
use fp_insis.Prelude.{
  ◌+◌, ◌≡◌, refl, ap, sym, ◌∙◌, subst, ◌≢◌, inl, inr, true, false, none, some, List, [], ◌∷◌,
  String, arith, map, get, put, length, length-perm, length-map, if◌then◌else◌, ◌==◌, string_eq,
  Permᴰ, Bool-cases, ℤ, nat_beq, int_eq,
}
use mathlib.Core.List.Permᴰ
use text.Mathlib.TextEquality.{eq_iff}
use fp_insis.Status.{ok}
use fp_insis.Pb.{SessionSummary, SubmitResultRequest, SubmitResultResponse}
use fp_insis.Session.{Session, SessionStore, ResultEntry, get_session, add_entry}
use fp_insis.Session.Recording.{record_recorded}
use fp_insis.Session.Finality.{add_entry_fields}
use fp_insis.Session.Outcomes.{add_entry-HasEntered}
use fp_insis.Tracker.{get_session_rpc, player_result, submit_result}
use fp_insis.Runtime.{unix_milli}
use fp_insis.Tracker.Replies.{validate_iff}

map-perm : {A B : Type 0} (f : A → B) {xs ys : List A} → Permᴰ xs ys → Permᴰ (map f xs) (map f ys)
map-perm f Permᴰ.nil = Permᴰ.nil
map-perm f (Permᴰ.cons e p) = Permᴰ.cons (ap f e) (map-perm f p)
map-perm f (Permᴰ.swap e h) = Permᴰ.swap (ap f e) (ap f h)
map-perm f (Permᴰ.trans p q) = Permᴰ.trans (map-perm f p) (map-perm f q)

-- A new key stands somewhere among the others.
put_new-perm :
    (k : String) (v : ResultEntry) (m : List (String × ResultEntry))
    → get k m ≡ none
    → Permᴰ ((k, v) ∷ m) (put k v m)
unfolding put get
put_new-perm k v [] h = Permᴰ.refl ((k, v) ∷ [])
put_new-perm k v ((j, w) ∷ m) h = elim (Bool-cases (j == k)) [
  | inl e ↦ absurd (ground arith)
  | inr e ↦
      rw e
        (Permᴰ.trans (Permᴰ.swap refl refl) (Permᴰ.cons refl (put_new-perm k v m (ground arith))))
]

-- What a call shows of the session `s`.
shown :
    (order : List (String × ResultEntry) → List (String × ResultEntry)) (id : String)
    (ss : SessionStore) (s : Session)
    → id ≢ ""
    → get_session id ss ≡ some s
    → get_session_rpc order (record { session_id = id }) ss
      ≡ ok (record {
        session_id = s.session_id;
        results = map player_result (order s.results);
        started_at_ms = unix_milli s.started_at;
        ended_at_ms = unix_milli s.ended_at;
        finalized = s.finalized;
      })
unfolding get_session_rpc
shown order id ss s named found = ground (arith, eq_iff id "", found, named)

abbrev Order : Type 0
Order = List (String × ResultEntry) → List (String × ResultEntry)

module _ (before after : Order)
    (before-perm : (m : List (String × ResultEntry)) → Permᴰ m (before m))
    (after-perm : (m : List (String × ResultEntry)) → Permᴰ m (after m)) where
  -- What GetSession shows before and after an accepted submission, in whatever order the maps are
  -- visited: the same session and start; the results that it showed and one more, with the request's
  -- player, result and score and the change that the reply gave; and the session closed, at this time,
  -- when with it every player has a result.
  pub submit-get_session_rpc :
      (now : ℤ) (req : SubmitResultRequest) (ss : SessionStore) (reply : SubmitResultResponse)
      → (submit_result false now req ss).1 ≡ ok reply
      → (s : Session) × (r0 r1 : SessionSummary) × (get_session req.session_id ss ≡ some s)
        × (get_session_rpc before (record { session_id = req.session_id }) ss ≡ ok r0)
        × (get_session_rpc after
              (record { session_id = req.session_id })
              (submit_result false now req ss).0
            ≡ ok r1)
        × (r1.session_id ≡ r0.session_id)
        × (r1.started_at_ms ≡ r0.started_at_ms)
        × Permᴰ
            (record {
              player_id = req.player_id;
              result = req.result;
              score = req.score;
              mmr_delta = reply.new_mmr;
            }
              ∷ r0.results)
            r1.results
        × (r1.finalized
            ≡ (if nat_beq (length r1.results) (length s.player_ids) then true else r0.finalized))
        × (r1.ended_at_ms ≡ (
            if nat_beq (length r1.results) (length s.player_ids)
            then unix_milli now
            else r0.ended_at_ms))
  unfolding submit_result
  submit-get_session_rpc now req ss reply h =
      let (s, found, member, new, delta, stored) =
        record_recorded now req.session_id req.player_id req.result req.score ss reply.new_mmr
          (ground arith) in
      let entry : ResultEntry = record {
        player_id = req.player_id;
        result = req.result;
        score = req.score;
        mmr_delta = reply.new_mmr;
      } in
      let t = add_entry now req.player_id entry s in
      let e = add_entry-HasEntered now req.player_id req.result req.score reply.new_mmr s new in
      let fields = add_entry_fields now req.player_id entry s in
      let named : req.session_id ≢ "" = λ x. ground (arith, validate_iff req) in
      let held : get_session req.session_id (submit_result false now req ss).0 ≡ some t =
        ground (arith, stored req.session_id, eq_iff req.session_id req.session_id) in
      let grown : Permᴰ ((req.player_id, entry) ∷ before s.results) (after t.results) =
        Permᴰ.trans (Permᴰ.cons refl (Permᴰ.symm (before-perm s.results))) (
          Permᴰ.trans (put_new-perm req.player_id entry s.results new) (
            subst (λ (m : List (String × ResultEntry)). Permᴰ m (after t.results)) fields.1
              (after-perm t.results))) in
      let counted : length (map player_result (after t.results)) ≡ length s.results + 1 =
        (length-map player_result (after t.results)
          ∙ sym (length-perm (after-perm t.results))
          ∙ e.one_more) in
      (
        s,
        _,
        _,
        found,
        shown before req.session_id ss s named found,
        shown after req.session_id (submit_result false now req ss).0 t named held,
        e.id,
        ap unix_milli e.began,
        map-perm player_result grown,
        rw counted e.closed,
        rw counted (ap unix_milli e.ended ∙ ground arith),
      )
