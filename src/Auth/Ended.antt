-- ===== src/Auth/Ended.antt =====
-- A session that ended, or whose membership did, gives no scope again.
use hackaton_open_ai.Prelude.{
  ℕ, ◌≤◌, ◌≡◌, ◌∙◌, refl, sym, ap, subst, String, Bool, true, true≢false, not, ◌&&◌, none, some,
  List, [], ◌∷◌, any, find, find-some, find_all, All, ◌==◌, string_eq, eq_iff, arith, Option-cases,
  inl, inr,
}
use hackaton_open_ai.Store.Where.{
  update_where, count_where, any-update_same, once_all, All-update_where, All-updated,
}
use hackaton_open_ai.Auth.{Accounts, SessionRow, ResetRow, is_set}
use hackaton_open_ai.Auth.Sessions.{
  resolve_family_scope, revoke_auth_session, revoke_session, is_live, is_joined, can_reset,
  consume_password_reset_token, revoke_account_sessions,
}
use hackaton_open_ai.Auth.Login.{Secrets, complete_password_reset}
use hackaton_open_ai.Auth.Run.{Call, step, run, SessionMove, opened, moved}
use hackaton_open_ai.Auth.Moves.{step-Moves}

abbrev has_token : String → List SessionRow → Bool
has_token h rows = any (λ (r : SessionRow). r.token_hash == h) rows

-- The session is there, and it was revoked.
record IsEnded (h : String) (rows : List SessionRow) : Type 0 where
  pub present : has_token h rows ≡ true
  pub ended : All (λ r. (r.token_hash == h) ≡ true → is_set r.revoked_at ≡ true) rows

module _ (h : String) where
  move-IsEnded :
      (rows more : List SessionRow) → SessionMove rows more → IsEnded h rows → IsEnded h more
  move-IsEnded rows more SessionMove.unmoved v = v
  move-IsEnded rows more (opened c new) v = record {
    present = ground (arith, v.present);
    ended = (
      λ k. absurd (
          true≢false (
            sym (subst (λ t. has_token t rows ≡ true) (sym ((eq_iff c.token_hash h).0 k)) v.present)
            ∙ new)),
      v.ended,
    );
  }
  move-IsEnded rows more (moved test change same member keeps) v = record {
    present =
        any-update_same (λ r. r.token_hash == h) test change rows (λ r. ap (λ t. t == h) (same r))
        ∙ v.present;
    ended =
        All-update_where (λ r. (r.token_hash == h) ≡ true → is_set r.revoked_at ≡ true) test change
          rows (λ r t k g. keeps r (k (subst (λ u. (u == h) ≡ true) (same r) g))) v.ended;
  }

  run-IsEnded :
      (x : Secrets) (calls : List Call) (s : Accounts)
      → IsEnded h s.sessions
      → IsEnded h (run x calls s).sessions
  unfolding run
  run-IsEnded x [] s v = v
  run-IsEnded x (call ∷ calls) s v =
      run-IsEnded x calls (step x call s)
        (move-IsEnded s.sessions (step x call s).sessions (step-Moves x call s).sessions v)

  ended_unresolved :
      (now : ℕ) (s : Accounts) → IsEnded h s.sessions → (resolve_family_scope h now s).0 ≡ none
  unfolding resolve_family_scope
  ended_unresolved now s v =
      elim (Option-cases (find (λ r. is_live h now r && is_joined s r) s.sessions)) [
        | inl e ↦ rw (e, resolve_family_scope) refl
        | inr (r, e) ↦
            let live = find-some (λ r. is_live h now r && is_joined s r) s.sessions r e in
            let over =
              find_all (λ r. (r.token_hash == h) ≡ true → is_set r.revoked_at ≡ true)
                (λ r. is_live h now r && is_joined s r) s.sessions r v.ended e
                (ground (arith, live)) in
            absurd (ground (arith, live, over))
      ]

ended_all :
    (h : String) (now : ℕ) (rows : List SessionRow)
    → All
        (λ r. (r.token_hash == h) ≡ true → is_set r.revoked_at ≡ true)
        (update_where
          (λ r. (r.token_hash == h) && not (is_set r.revoked_at))
          (revoke_session now)
          rows)
unfolding update_where
ended_all h now [] = tt
ended_all h now (r ∷ rows) = (λ k. ground (arith, k), ended_all h now rows)

-- After a session is revoked, its token gives no scope again, whatever calls follow.
left_forever :
    (x : Secrets) (h : String) (now later : ℕ) (calls : List Call) (s : Accounts)
    → has_token h s.sessions ≡ true
    → (resolve_family_scope h later (run x calls (revoke_auth_session h now s))).0 ≡ none
unfolding revoke_auth_session
left_forever x h now later calls s present =
    ended_unresolved h later (run x calls (revoke_auth_session h now s)) (
      run-IsEnded h x calls (revoke_auth_session h now s) (record {
        present =
            any-update_same (λ (r : SessionRow). r.token_hash == h)
              (λ r. (r.token_hash == h) && not (is_set r.revoked_at)) (revoke_session now)
              s.sessions (λ r. refl)
            ∙ present;
        ended = ended_all h now s.sessions;
      }))

any_of_both :
    (h account : String) (rows : List SessionRow)
    → any (λ (r : SessionRow). (r.token_hash == h) && (r.account_id == account)) rows ≡ true
    → has_token h rows ≡ true
any_of_both h account [] k = k
any_of_both h account (r ∷ rows) k = ground (arith, k, any_of_both h account rows)

reset_sessions :
    (token_hash hash : String) (now : ℕ) (s t : Accounts) (row : ResetRow)
    → find (can_reset token_hash now) s.resets ≡ some row
    → consume_password_reset_token token_hash hash now s ≡ (true, t)
    → t.sessions
      ≡ update_where
          (λ r. (r.account_id == row.account_id) && not (is_set r.revoked_at))
          (revoke_session now)
          s.sessions
unfolding consume_password_reset_token revoke_account_sessions
reset_sessions token_hash hash now s t row e done = ground (arith, e, done)

-- A password reset that succeeds ends the sessions of its account: where the token of such a session is
-- held once, it gives no scope again, whatever calls follow.
pub reset_ends_sessions :
    (x : Secrets) (token hash h : String) (now later : ℕ) (row : ResetRow) (calls : List Call)
    (s t : Accounts)
    → find (can_reset (x.token_hash token) now) s.resets ≡ some row
    → complete_password_reset x token hash now s ≡ (true, t)
    → count_where (λ (r : SessionRow). r.token_hash == h) s.sessions ≤ 1
    → any (λ (r : SessionRow). (r.token_hash == h) && (r.account_id == row.account_id)) s.sessions
      ≡ true
    → (resolve_family_scope h later (run x calls t)).0 ≡ none
unfolding complete_password_reset
reset_ends_sessions x token hash h now later row calls s t at done once held =
    let mine : SessionRow → Bool =
      λ (r : SessionRow). (r.token_hash == h) && (r.account_id == row.account_id) in
    let open_one : SessionRow → Bool =
      λ r. (r.account_id == row.account_id) && not (is_set r.revoked_at) in
    let token_of : SessionRow → Bool = λ r. r.token_hash == h in
    let ended : IsEnded h (update_where open_one (revoke_session now) s.sessions) = record {
      present =
          any-update_same token_of open_one (revoke_session now) s.sessions (λ r. refl)
          ∙ any_of_both h row.account_id s.sessions held;
      ended =
          All-updated (λ r. token_of r ≡ true → mine r ≡ true)
            (λ r. token_of r ≡ true → is_set r.revoked_at ≡ true) open_one (revoke_session now)
            s.sessions (λ r g k i. refl) (λ r g k i. ground (arith, g, k i))
            (once_all token_of mine s.sessions (λ r g. ground (arith, g)) once held);
    } in
    ended_unresolved h later (run x calls t) (
      run-IsEnded h x calls t (
        subst (IsEnded h) (sym (reset_sessions (x.token_hash token) hash now s t row at done))
          ended))
