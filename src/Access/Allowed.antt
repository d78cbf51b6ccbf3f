-- ===== src/Access/Allowed.antt =====
-- What a request that the middleware lets through has been checked for.
use cim_backend.Prelude.{
  String, ◌≡◌, ap, sym, subst, ◌∙◌, inl, inr, true, false, ◌||◌, Bool-cases, none, some,
  Option-cases, List, ok, ok-injective, and_then, and_then-eq-ok, str_eq,
}
use cim_backend.Access.Routes.{is_empty_resource, extract_resource_and_action}
use cim_backend.Access.Gate.{
  Casbin, Account, Request, Granted, enforcement_subject, present, account_by_email, resolve_role,
  enforce_route, authorize,
}

-- Where the role of a caller comes from.
pub data RoleOf (req : Request) (accounts : List Account) : String → Type 0 where
  from_context : (role : String) → present req.user_role ≡ some role → RoleOf req accounts role
  from_account :
      (email : String) (account : Account)
      → present req.user_role ≡ none
      → present req.user_email ≡ some email
      → account_by_email email accounts ≡ some account
      → str_eq account.status "inactive" ≡ false
      → str_eq account.status "pending" ≡ false
      → RoleOf req accounts account.role

-- The enforcer allowed the caller's subject the action on the resource of the route.
pub record Allowed (casbin : Casbin) (req : Request) (accounts : List Account) (g : Granted)
    : Type 0 where
  pub identified : str_eq req.user_id "" ≡ false
  pub role : RoleOf req accounts g.role
  pub subject : g.subject ≡ enforcement_subject casbin req.user_id g.role
  pub has_target :
      let target = extract_resource_and_action req.method req.path in
      (is_empty_resource target.0 || str_eq target.1 "") ≡ false
  pub enforced :
      let target = extract_resource_and_action req.method req.path in
      casbin.enforce g.subject target.0 target.1 ≡ some true

resolve_role-RoleOf :
    (req : Request) (accounts : List Account) (role : String)
    → (resolve_role req accounts).0 ≡ ok role
    → RoleOf req accounts role
unfolding resolve_role
resolve_role-RoleOf req accounts role h = elim (Option-cases (present req.user_role)) [
  | inr (r, there) ↦
      let e : r ≡ role = ok-injective (rw (there, resolve_role) at h) in
      subst (RoleOf req accounts) e (from_context r there)
  | inl absent ↦ elim (Option-cases (present req.user_email)) [
    | inl missing ↦ absurd (cc (rw (absent, resolve_role, missing) at h))
    | inr (email, known) ↦ elim (Option-cases (account_by_email email accounts)) [
      | inl missing ↦ absurd (cc (rw (absent, resolve_role, known, missing) at h))
      | inr (account, found) ↦
          let h1 = rw (absent, resolve_role, known, found) at h in
          elim (Bool-cases (str_eq account.status "inactive")) [
            | inl inactive ↦ absurd (cc (rw inactive at h1))
            | inr active ↦
                let h2 = rw active at h1 in
                elim (Bool-cases (str_eq account.status "pending")) [
                  | inl pending ↦ absurd (cc (rw pending at h2))
                  | inr settled ↦
                      let e : account.role ≡ role = ok-injective (rw settled at h2) in
                      subst (RoleOf req accounts) e
                        (from_account email account absent known found active settled)
                ]
          ]
    ]
  ]
]

enforce_route-ok :
    (casbin : Casbin) (req : Request) (role : String) (g : Granted)
    → enforce_route casbin req role ≡ ok g
    → let target = extract_resource_and_action req.method req.path in
      let subject = enforcement_subject casbin req.user_id role in
      (g.role ≡ role)
      × (g.subject ≡ subject)
      × ((is_empty_resource target.0 || str_eq target.1 "") ≡ false)
      × (casbin.enforce subject target.0 target.1 ≡ some true)
unfolding enforce_route
enforce_route-ok casbin req role g h =
    let target = extract_resource_and_action req.method req.path in
    let subject = enforcement_subject casbin req.user_id role in
    elim (Bool-cases (is_empty_resource target.0 || str_eq target.1 "")) [
      | inl empty ↦ absurd (cc (rw empty at h))
      | inr named ↦
          let h1 = rw named at h in
          elim (Option-cases (casbin.enforce subject target.0 target.1)) [
            | inl failed ↦ absurd (cc (rw failed at h1))
            | inr (true, answered) ↦
                let h2 = ok-injective (rw answered at h1) in
                (
                  ap (λ (x : Granted). x.role) (sym h2),
                  ap (λ (x : Granted). x.subject) (sym h2),
                  named,
                  answered,
                )
            | inr (false, answered) ↦ absurd (cc (rw answered at h1))
          ]
    ]

-- When the middleware lets a request through, it names a user; its role is the one of the context,
-- or that of the account with its email, which is neither inactive nor pending; the resource and
-- the action of the route are not empty; and the enforcer allowed that action on that resource to
-- the subject that the handler is given, which is the user where the policy binds the user and the
-- role otherwise.
pub authorize-Allowed :
    (casbin : Casbin) (req : Request) (accounts left : List Account) (g : Granted)
    → authorize casbin req accounts ≡ (ok g, left)
    → Allowed casbin req accounts g
unfolding authorize
authorize-Allowed casbin req accounts left g h = elim (Bool-cases (str_eq req.user_id "")) [
  | inl anonymous ↦ absurd (cc (rw anonymous at h))
  | inr identified ↦
      let h1 : and_then (resolve_role req accounts).0 (enforce_route casbin req) ≡ ok g =
        ap (λ p. p.0) (rw identified at h) in
      let (role, resolved, enforced) =
        and_then-eq-ok (resolve_role req accounts).0 (enforce_route casbin req) h1 in
      let (same, subject, target, allowed) = enforce_route-ok casbin req role g enforced in
      let target_of = extract_resource_and_action req.method req.path in
      record {
        identified = identified;
        role =
            subst (RoleOf req accounts) (sym same) (resolve_role-RoleOf req accounts role resolved);
        subject = subject ∙ ap (enforcement_subject casbin req.user_id) (sym same);
        has_target = target;
        enforced = ap (λ s. casbin.enforce s target_of.0 target_of.1) subject ∙ allowed;
      }
]
