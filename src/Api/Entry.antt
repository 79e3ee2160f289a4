-- ===== src/Api/Entry.antt =====
-- How a request gets to its handler, and what stays as it was where it does not.
use doda.Base.{
  ℕ, String, Bool, Option, none, some, ◌≡◌, ◌⊎◌, ◌==◌, refl, inl, inr, Bool-cases, Option-cases,
}
use text.Mathlib.Text.{starts_with}
use doda.Base.Table.{update}
use doda.Env.{Env}
use doda.Db.{
  State, M, Result, Error, session_invalid, authorization_error, ok, err, ◌>>=◌, transaction,
}
use doda.Domain.Identity.{Session}
use doda.Domain.Tenant.{WorkspaceTenantIndex}
use doda.Session.{session_of}
use doda.Domain.Security.{deny}
use doda.Session.Lifetime.{IsLive, resolve_session_decides, touched_state}
use doda.Authz.Context.{IsEntitled, get_workspace_context_decides}
use doda.Api.Errors.{respond, refused}
use doda.Api.{
  RequestContext, parse_header, parse_bearer_session_id, resolve_index, in_workspace,
  enter_workspace, resolve_request_context, tenant_index, after_prefix,
}

-- An error of the header is answered with 401.
abbrev IsUnauthenticated : Result ℕ → Type 0
IsUnauthenticated (ok id) = Unit
IsUnauthenticated (err x) = respond x ≡ refused 401 "UNAUTHENTICATED"

-- The header is read without a change of the state.
parse_reads :
    (authorization : Option String) (e : Env) (s : State)
    → (r : Result ℕ) × (parse_bearer_session_id authorization e s ≡ (r, s)) × IsUnauthenticated r
unfolding parse_bearer_session_id parse_header respond
parse_reads none e s = (err (session_invalid "missing bearer session token"), refl, refl)
parse_reads (some h) e s = elim (Bool-cases (starts_with h "Bearer ")) [
  | inr other ↦ (err (session_invalid "missing bearer session token"), rw other refl, refl)
  | inl bearer ↦ elim (Option-cases (e.parse_uuid (after_prefix h))) [
    | inl malformed ↦
        (err (session_invalid "malformed session token"), rw (bearer, malformed) refl, refl)
    | inr (id, parsed) ↦ (ok id, rw (bearer, parsed) refl, tt)
  ]
]

-- What lets a request into a workspace: its header names a session that is live, the workspace has a
-- tenant, and the session's user is entitled to the context, whose strength is the session's.
pub record IsEntered (workspace_id : ℕ) (authorization : Option String) (allow_archived : Bool)
    (e : Env) (s : State) (ctx : RequestContext) (session : Session) : Type 0 where
  pub session_id : ℕ
  pub parsed : (parse_bearer_session_id authorization e s).0 ≡ ok session_id
  pub found : session_of session_id s.db ≡ some session
  pub live : IsLive (e.clock s.reads) session
  pub index : WorkspaceTenantIndex
  pub indexed : tenant_index workspace_id s.db ≡ some index
  pub entitled :
      IsEntitled session.user_id workspace_id allow_archived
        (touched_state session e s).db
        ctx.workspace
  pub strength : ctx.auth_strength ≡ session.auth_strength

-- The request is refused: it raises, the response is one of two, whatever the reason is, and the
-- database is as it was, but for the session that the header names, whose row may say that it has
-- been seen now.
pub record IsRefused {A : Type 0} (authorization : Option String) (e : Env) (out : Result A × State)
    (s : State) : Type 0 where
  pub error : Error
  pub raised : out.0 ≡ err error
  pub response :
      (respond error ≡ refused 401 "UNAUTHENTICATED") ⊎ (respond error ≡ refused 403 "DENY")
  pub same :
      (out.1.db ≡ s.db)
      ⊎ ((session_id : ℕ) × (session : Session) × ((parse_bearer_session_id authorization e s).0
            ≡ ok session_id)
          × (session_of session_id s.db ≡ some session)
          × (out.1.db ≡ record s.db {
            sessions =
                update
                  (λ x. x.id == session.id)
                  (λ x. record x { last_seen_at = e.clock s.reads })
                  s.db.sessions;
          }))

module _ {A : Type 0} (workspace_id : ℕ) (authorization : Option String) (allow_archived : Bool)
    (handler : RequestContext → M A) (e : Env) (s : State) where
  abbrev go : ℕ → M A
  go session_id = do
    resolved ← transaction (resolve_index session_id workspace_id)
    enter_workspace workspace_id allow_archived handler resolved

  resolved_cases :
      (session_id : ℕ)
      → (parse_bearer_session_id authorization e s).0 ≡ ok session_id
      → IsRefused authorization e (go session_id e s) s
        ⊎ ((ctx : RequestContext) × (session : Session) × IsEntered workspace_id authorization
              allow_archived e s ctx session
            × (go session_id e s ≡ transaction (handler ctx) e (touched_state session e s)))
  unfolding transaction resolve_index enter_workspace in_workspace respond
  resolved_cases session_id parsed = elim (resolve_session_decides session_id e s) [
    | inr (dead, (reason, raises)) ↦ inl (
        rw raises (record {
          error = session_invalid reason;
          raised = refl;
          response = inl refl;
          same = inl refl;
        }))
    | inl (session, found, live, resolves) ↦ elim (Option-cases (tenant_index workspace_id s.db)) [
      | inl unknown ↦ inl (
          rw resolves (
            rw unknown (record {
              error = authorization_error deny;
              raised = refl;
              response = inr refl;
              same = inr (session_id, session, parsed, found, refl);
            })))
      | inr (index, indexed) ↦
          let s1 = touched_state session e s in
          elim (get_workspace_context_decides session.user_id workspace_id allow_archived e s1) [
            | inr (denied, nobody) ↦ inl (
                rw resolves (
                  rw indexed (
                    rw denied (record {
                      error = authorization_error deny;
                      raised = refl;
                      response = inr refl;
                      same = inr (session_id, session, parsed, found, refl);
                    }))))
            | inl (ctx, granted, entitled) ↦ inr (
              record { workspace = ctx; auth_strength = session.auth_strength },
              session,
              record {
                session_id = session_id;
                parsed = parsed;
                found = found;
                live = live;
                index = index;
                indexed = indexed;
                entitled = entitled;
                strength = refl;
              },
              rw resolves (rw indexed (rw granted refl)),
            )
          ]
    ]
  ]

  -- A request is refused, with 401 UNAUTHENTICATED or 403 DENY whatever the reason is, and changes
  -- nothing but, at most, when the session that its header names was last seen; or its handler runs
  -- in a transaction with a context that the user of a live session is entitled to.
  pub request_cases :
      let out = resolve_request_context workspace_id authorization allow_archived handler e s in
      IsRefused authorization e out s
      ⊎ ((ctx : RequestContext) × (session : Session) × IsEntered workspace_id authorization
            allow_archived e s ctx session
          × (out ≡ transaction (handler ctx) e (touched_state session e s)))
  unfolding resolve_request_context
  request_cases = by_header (parse_reads authorization e s)
    where
      by_header :
          (r : Result ℕ) × (parse_bearer_session_id authorization e s ≡ (r, s))
            × IsUnauthenticated r
          → let out =
              resolve_request_context workspace_id authorization allow_archived handler e s in
            IsRefused authorization e out s
            ⊎ ((ctx : RequestContext) × (session : Session) × IsEntered workspace_id authorization
                  allow_archived e s ctx session
                × (out ≡ transaction (handler ctx) e (touched_state session e s)))
      by_header (err x, h, unknown) =
          inl (rw h (record { error = x; raised = refl; response = inl unknown; same = inl refl }))
      by_header (ok session_id, h, known) = rw h (resolved_cases session_id (rw h refl))
