-- ===== src/Customer.antt =====
-- backend/src/doda/application/customer_service.py: a customer and its memberships.
pub mod Owners
use doda.Base.{
  ℕ, String, Bool, true, false, not, ◌&&◌, Option, none, some, List, map, leb, ◌==◌, is_none,
  if◌then◌else◌,
}
use doda.Base.Table.{find, select, update, delete, insert, length}
use doda.Json.{Json, text, object, end, field}
use doda.Env.{Env}
use doda.Db.{
  Db, M, customer_membership_error, duplicate_membership, ◌>>=◌, ◌>>◌, pure, raise, raise_if, gets,
  asks, modify, utcnow, uuid4,
}
use doda.Domain.Security.{CustomerRole, StoredRole}
use doda.Domain.Tenant.{Customer, CustomerMembership, UserCustomerIndex}
use doda.Audit.{Entry, record_audit_event}
use doda.Authz.{is_owner_role, membership_of}

-- The audit event of the caller, which takes a fresh trace id, about the whole customer.
audit_customer : ℕ → String → String → (Env → Json) → M (Unit {0})
audit_customer customer_id actor_id event_type metadata = do
  trace_id ← uuid4
  safe_metadata ← asks metadata
  record_audit_event (record {
    customer_id = customer_id;
    workspace_id = none;
    trace_id = trace_id;
    actor_id = actor_id;
    event_type = event_type;
    safe_metadata = safe_metadata;
  })
  pure tt

-- `role.value`
abbrev role_value : StoredRole → String
role_value (StoredRole.role CustomerRole.customer_owner) = "customer_owner"
role_value (StoredRole.role CustomerRole.member) = "member"
role_value (StoredRole.role CustomerRole.auditor) = "auditor"
role_value StoredRole.platform_owner = "platform_owner"

unfoldable pub create_customer_with_owner :
    ℕ → String → ℕ → String → M (Customer × CustomerMembership)
unfolding audit_customer
create_customer_with_owner customer_id name owner_user_id actor_id = do
  customer_at ← utcnow
  let customer : Customer = record { id = customer_id; created_at = customer_at; name = name }
  modify (λ db. record db { customers = insert customer db.customers })
  id ← uuid4
  created_at ← utcnow
  let membership : CustomerMembership = record {
    id = id;
    created_at = created_at;
    customer_id = customer_id;
    user_id = owner_user_id;
    role = StoredRole.role CustomerRole.customer_owner;
  }
  modify (λ db. record db {
    customer_memberships = insert membership db.customer_memberships;
    user_customer_index =
        insert (record { user_id = owner_user_id; customer_id = customer_id })
          db.user_customer_index;
  })
  audit_customer customer_id actor_id "customer.created.v1" (λ e.
      object (field "customer_id" (text (e.str_uuid customer_id)) (field "name" (text name) end)))
  pure (customer, membership)

abbrev pub is_owner_of : ℕ → CustomerMembership → Bool
is_owner_of customer_id m = m.customer_id == customer_id && is_owner_role m.role

-- `_count_customer_owners`
abbrev pub count_customer_owners : ℕ → Db → ℕ
count_customer_owners customer_id db =
    length (select (is_owner_of customer_id) db.customer_memberships)

abbrev pub index_of : ℕ → ℕ → Db → Option UserCustomerIndex
index_of user_id customer_id db =
    find (λ i. i.user_id == user_id && i.customer_id == customer_id) db.user_customer_index

abbrev add_index : ℕ → ℕ → Db → Db
add_index user_id customer_id db =
    if is_none (index_of user_id customer_id db)
    then record db {
      user_customer_index =
          insert (record { user_id = user_id; customer_id = customer_id }) db.user_customer_index;
    }
    else db

unfoldable pub invite_customer_member : ℕ → ℕ → CustomerRole → String → M CustomerMembership
unfolding audit_customer
invite_customer_member customer_id user_id role actor_id = do
  id ← uuid4
  created_at ← utcnow
  conflicting ← gets (membership_of user_id customer_id)
  raise_if (not (is_none conflicting)) duplicate_membership
  let membership : CustomerMembership = record {
    id = id;
    created_at = created_at;
    customer_id = customer_id;
    user_id = user_id;
    role = StoredRole.role role;
  }
  modify (λ db. record db { customer_memberships = insert membership db.customer_memberships })
  modify (add_index user_id customer_id)
  audit_customer customer_id actor_id "customer.member_invited.v1" (λ e. object (
      field "customer_membership_id" (text (e.str_uuid id))
        (field "role" (text (role_value (StoredRole.role role))) end)))
  pure membership

abbrev pub with_role : CustomerRole → CustomerMembership → CustomerMembership
with_role new_role m = record m { role = StoredRole.role new_role }

abbrev pub change_metadata : CustomerMembership → CustomerRole → Env → Json
change_metadata membership new_role e = object (
    field "customer_membership_id" (text (e.str_uuid membership.id)) (
      field "from_role" (text (role_value membership.role))
        (field "to_role" (text (role_value (StoredRole.role new_role))) end)))

unfoldable pub change_customer_member_role :
    CustomerMembership → CustomerRole → String → M CustomerMembership
unfolding audit_customer
change_customer_member_role membership new_role actor_id = do
  owners ← gets (count_customer_owners membership.customer_id)
  raise_if
      (is_owner_role membership.role
        && not (is_owner_role (StoredRole.role new_role))
        && leb owners 1)
      customer_membership_error
  modify (λ db. record db {
    customer_memberships =
        update (λ m. m.id == membership.id) (with_role new_role) db.customer_memberships;
  })
  audit_customer membership.customer_id actor_id "customer.member_role_changed.v1"
      (change_metadata membership new_role)
  pure (with_role new_role membership)

-- The bootstrap index loses the pair once no membership of it remains.
abbrev drop_index : ℕ → ℕ → Db → Db
drop_index user_id customer_id db =
    if is_none (membership_of user_id customer_id db)
    then record db {
      user_customer_index =
          delete (λ i. i.user_id == user_id && i.customer_id == customer_id) db.user_customer_index;
    }
    else db

abbrev pub remove_metadata : CustomerMembership → Env → Json
remove_metadata membership e = object (
    field "customer_membership_id" (text (e.str_uuid membership.id))
      (field "role" (text (role_value membership.role)) end))

unfoldable pub remove_customer_member : CustomerMembership → String → M (Unit {0})
unfolding audit_customer
remove_customer_member membership actor_id = do
  owners ← gets (count_customer_owners membership.customer_id)
  raise_if (is_owner_role membership.role && leb owners 1) customer_membership_error
  modify (λ db. record db {
    workspace_memberships =
        delete (λ w. w.customer_membership_id == membership.id) db.workspace_memberships;
  })
  audit_customer membership.customer_id actor_id "customer.member_removed.v1"
      (remove_metadata membership)
  modify (λ db. record db {
    customer_memberships = delete (λ m. m.id == membership.id) db.customer_memberships;
  })
  modify (drop_index membership.user_id membership.customer_id)

unfoldable pub customer_ids_for_user : ℕ → M (List ℕ)
customer_ids_for_user user_id =
    gets
      (λ db. map (λ i. i.customer_id) (select (λ i. i.user_id == user_id) db.user_customer_index))
