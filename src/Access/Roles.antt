-- ===== src/Access/Roles.antt =====
-- The roles of xedge/api/permissions.py: the administrator's includes every other.
use xedge.Prelude.{
  ◌≡◌, refl, ap, ◌∙◌, sym, subst, String, Bool, true, false, ◌&&◌, ◌||◌, inl, inr, Bool-cases,
  Option, none, some, List, [], ◌∷◌, str_eq, eq_iff, All,
}
use xedge.Prelude.Assoc.{get, get-All}
use xedge.Access.{contains, permissions_of, role_permissions, has_permission}

-- Each of the first permissions is among the second.
unfoldable is_subset : List String → List String → Bool
unfolding contains
is_subset [] others = true
is_subset (p ∷ permissions) others = contains others p && is_subset permissions others

both : (a b : Bool) → (a && b) ≡ true → (a ≡ true) × (b ≡ true)
both true b e = (refl, e)
both false b e = absurd (cc e)

contains-subset :
    (permissions others : List String) (permission : String)
    → is_subset permissions others ≡ true
    → contains permissions permission ≡ true
    → contains others permission ≡ true
unfolding is_subset contains
contains-subset [] others permission s h = absurd (cc h)
contains-subset (p ∷ permissions) others permission s h =
    let (first, rest) = both (contains others p) (is_subset permissions others) s in
    elim (Bool-cases (str_eq p permission)) [
      | inl e ↦ subst (λ q. contains others q ≡ true) ((eq_iff p permission).0 e) first
      | inr e ↦
          contains-subset permissions others permission rest
            (ap (λ b. b || contains permissions permission) (sym e) ∙ h)
    ]

unfoldable admin_permissions : List String
unfolding get
admin_permissions = permissions_of (get role_permissions "admin")

role_permissions-subset : All (λ e. is_subset e.1 admin_permissions ≡ true) role_permissions
unfolding is_subset contains admin_permissions get
role_permissions-subset = (refl, (refl, (refl, (refl, tt))))

-- A permission of any role is one of the administrator's.
pub has_permission-admin :
    (role : Option String) (permission : String)
    → has_permission role permission ≡ true
    → has_permission (some "admin") permission ≡ true
unfolding has_permission admin_permissions contains
has_permission-admin none permission h = absurd (cc h)
has_permission-admin (some role) permission h = found (get role_permissions role) refl h
  where
    found :
        (o : Option (List String))
        → get role_permissions role ≡ o
        → contains (permissions_of o) permission ≡ true
        → contains admin_permissions permission ≡ true
    found none e h = absurd (cc h)
    found (some permissions) e h =
        contains-subset permissions admin_permissions permission
          (get-All (λ entry. is_subset entry.1 admin_permissions ≡ true) role_permissions role
            permissions role_permissions-subset e)
          h
