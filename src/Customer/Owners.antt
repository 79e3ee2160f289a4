-- ===== src/Customer/Owners.antt =====
-- A customer keeps an owner.
use doda.Base.{Bool, not, ◌&&◌, some, leb, ◌≡◌, ◌==◌}
use doda.Base.Table.{find}
use doda.Base.Table.Counts.{AtMostOne}
use doda.Json.{Json}
use doda.Env.{Env}
use doda.Db.{Db}
use doda.Domain.Security.{CustomerRole, StoredRole}
use doda.Domain.Tenant.{CustomerMembership}
use doda.Authz.{is_owner_role}
use doda.Customer.{count_customer_owners}

-- The guard of `change_customer_member_role`.
abbrev demotes_last : CustomerMembership → CustomerRole → Db → Bool
demotes_last m new_role db =
    is_owner_role m.role
    && not (is_owner_role (StoredRole.role new_role))
    && leb (count_customer_owners m.customer_id db) 1

-- The caller's object is the row of the membership, whose id no other row has.
pub record IsRow (m : CustomerMembership) (db : Db) : Type 0 where
  pub found : find (λ x. x.id == m.id) db.customer_memberships ≡ some m
  pub unique : AtMostOne (λ x. x.id == m.id) db.customer_memberships
