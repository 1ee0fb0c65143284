-- ===== src/Rls.antt =====
-- Roles and the per-request context of row-level security (src/common/rls/rls-context.ts,
-- src/common/rls/rls-request-context.ts), and the role check of src/common/auth/roles.guard.ts.
use wdc_backend.Prelude.{Uuid, Bool, true, false, ◌||◌, Option, none, some, List, [], ◌==◌, any}

pub data Role : Type 0 where
  secretary coordinator director system : Role

pub record RlsContext : Type 0 where
  pub user_id : Option Uuid
  pub role : Role
  pub lga_id : Option Uuid
  pub ward_id : Option Uuid

-- The context of the service's own transactions.
abbrev pub system_context : RlsContext
system_context = record { user_id = none; role = system; lga_id = none; ward_id = none }

-- The claims of a verified access token.
pub record JwtPayload : Type 0 where
  pub sub : Uuid
  pub role : Role
  pub lga : Option Uuid
  pub ward : Option Uuid
  pub jti : Uuid

-- `none` stands for the error on a request with no user.
unfoldable pub rls_context_from_request : Option JwtPayload → Option RlsContext
rls_context_from_request none = none
rls_context_from_request (some u) =
    some (record { user_id = some u.sub; role = u.role; lga_id = u.lga; ward_id = u.ward })

abbrev pub same_role : Role → Role → Bool
same_role secretary secretary = true
same_role coordinator coordinator = true
same_role director director = true
same_role system system = true
same_role _ _ = false

-- `roles.includes(role)`
abbrev pub includes : List Role → Role → Bool
includes roles role = any (same_role role) roles

abbrev no_role_required : List Role → Bool
no_role_required [] = true
no_role_required _ = false

-- The guard in front of a handler: whether a request with this user passes.
unfoldable pub can_activate : Option (List Role) → Option JwtPayload → Bool
can_activate none user = true
can_activate (some required) none = no_role_required required
can_activate (some required) (some u) = no_role_required required || includes required u.role

-- `column = current_setting(…)`, false where the setting is null.
abbrev pub is_current : Uuid → Option Uuid → Bool
is_current id none = false
is_current id (some current) = id == current
