-- ===== src/SkillCollection/Identity.antt =====
-- internal/controller/skillcollection_rbac.go: the identity that an enumeration Job runs as. What the API
-- server holds under each name, and what it answers to a write, are given.
pub mod Binding
pub mod Granted
use agentic_controller.Prelude.{
  Bool, ◌&&◌, not, Option, none, some, List, [], ◌∷◌, ◌++◌, Result, ok, err, any, if◌then◌else◌,
  String,
}
use agentic_controller.Text.{codes, equal_texts}
use agentic_controller.Text.Split.{is_nil}
use agentic_controller.Api.{Message, runes, format2, format3}
use agentic_controller.Message.{format1}
use agentic_controller.SkillCollection.{Name, CallError, forbidden, failing}
use agentic_controller.SkillCollection.Errors.{EnumerationError, call}

abbrev pub Labels : Type 0
Labels = List (String × Name)

pub record ServiceAccount : Type 0 where
  pub uid : Name
  pub name : Name
  pub namespace : Name
  pub labels : Labels

pub record PolicyRule : Type 0 where
  pub api_groups : List String
  pub resources : List String
  pub verbs : List String

pub record Role : Type 0 where
  pub uid : Name
  pub name : Name
  pub namespace : Name
  pub labels : Labels
  pub rules : List PolicyRule

pub record Subject : Type 0 where
  pub api_group : Name
  pub kind : Name
  pub name : Name
  pub namespace : Name

pub record RoleRef : Type 0 where
  pub api_group : Name
  pub kind : Name
  pub name : Name

pub record RoleBinding : Type 0 where
  pub uid : Name
  pub name : Name
  pub namespace : Name
  pub labels : Labels
  pub role_ref : RoleRef
  pub subjects : List Subject

-- What `CreateOrUpdate` meets: the object of a namespace and a name, and what the API server answers to
-- the one that is to be.
pub record Stored (A : Type 0) : Type 0 where
  pub find : Name → Name → Result CallError (Option A)
  pub write : A → Option CallError

pub record IdentityStore : Type 0 where
  pub account : Stored ServiceAccount
  pub role : Stored Role
  pub binding : Stored RoleBinding

abbrev pub enumerator_role_name : Name
enumerator_role_name = codes "skill-enumerator"

abbrev pub enumerator_labels : Labels
enumerator_labels =
    ("app.kubernetes.io/managed-by", codes "agentic-controller")
    ∷ ("app.kubernetes.io/component", enumerator_role_name)
    ∷ []

-- the grant
abbrev pub enumerator_rules : List PolicyRule
enumerator_rules =
    record {
      api_groups = "konveyor.io" ∷ [];
      resources = "skillcards" ∷ [];
      verbs = "create" ∷ "delete" ∷ "get" ∷ "list" ∷ "update" ∷ [];
    }
    ∷ []

-- An object that the API server is asked to create, or to update where it differs.
pub data IdentityWrite : Type 0 where
  put_account : ServiceAccount → IdentityWrite
  put_role : Role → IdentityWrite
  put_binding : RoleBinding → IdentityWrite

-- the object that the API server has been asked for, and the result
abbrev pub Put : Type 0 → Type 0
Put A = Option A × Result CallError A

written : {A : Type 0} → A → Option CallError → Result CallError A
written a none = ok a
written a (some e) = err e

changed : {A : Type 0} → (A → Option CallError) → Result CallError A → Put A
unfolding written
changed write (err e) = (none, err e)
changed write (ok a) = (some a, written a (write a))

-- the object as it is after a change of the one that there is, or of a fresh one
create_or_update :
    {A : Type 0}
    → (A → Option CallError)
    → A
    → (A → Result CallError A)
    → Result CallError (Option A)
    → Put A
unfolding changed
create_or_update write fresh change (err e) = (none, err e)
create_or_update write fresh change (ok none) = changed write (change fresh)
create_or_update write fresh change (ok (some a)) = changed write (change a)

label_account : ServiceAccount → Result CallError ServiceAccount
label_account sa = ok (if is_nil sa.uid then record sa { labels = enumerator_labels } else sa)

label_role : Role → Role
label_role role = if is_nil role.uid then record role { labels = enumerator_labels } else role

grant : Role → Result CallError Role
unfolding label_role
grant role = ok (record (label_role role) { rules = enumerator_rules })

unfoldable pub equal_subjects : Subject → Subject → Bool
unfolding equal_texts
equal_subjects s t =
    equal_texts s.api_group t.api_group
    && equal_texts s.kind t.kind
    && equal_texts s.name t.name
    && equal_texts s.namespace t.namespace

-- `slices.Contains`
abbrev pub contains_subject : List Subject → Subject → Bool
contains_subject subjects s = any (λ t. equal_subjects t s) subjects

-- the role that a binding must name
abbrev pub is_enumerator_role : RoleRef → Bool
is_enumerator_role ref =
    equal_texts ref.kind (codes "Role") && equal_texts ref.name enumerator_role_name

fresh_binding : Subject → RoleBinding → RoleBinding
fresh_binding s b = record b {
  labels = enumerator_labels;
  role_ref = record {
    api_group = codes "rbac.authorization.k8s.io";
    kind = codes "Role";
    name = enumerator_role_name;
  };
  subjects = s ∷ [];
}

conflict : Name → Subject → RoleBinding → Message
conflict ns s b =
    format3
      "RoleBinding %s already binds %s, and roleRef cannot be changed; delete it, or bind %s yourself"
      (format2 "%s/%s" (runes ns) (runes enumerator_role_name))
      (format2 "%s %q" (runes b.role_ref.kind) (runes b.role_ref.name))
      (format2 "%q to Role %q" (runes s.name) (runes enumerator_role_name))

pub with_subject : Subject → RoleBinding → RoleBinding
with_subject s b =
    if contains_subject b.subjects s then b else record b { subjects = b.subjects ++ s ∷ [] }

bind : Name → Subject → RoleBinding → Result CallError RoleBinding
unfolding fresh_binding with_subject conflict
bind ns s b =
    if is_nil b.uid
    then ok (fresh_binding s b)
    else if not (is_enumerator_role b.role_ref)
    then err (failing (conflict ns s b))
    else ok (with_subject s b)

-- what there is for the Job once its identity has been prepared
pub record Identity : Type 0 where
  pub account : ServiceAccount
  pub role : Role
  pub binding : RoleBinding

-- `rbacError`
rbac_error : Name → Name → CallError → EnumerationError
rbac_error ns account (forbidden m) =
    call
      (format3 "%s, or create in %s%s"
        (format1
          "the controller may not create RBAC in namespace %s, so the enumeration Job has no identity. Either grant the controller create on serviceaccounts, roles and rolebindings"
          (runes ns))
        (format2 "%s: a ServiceAccount named %q" (runes ns) (runes account))
        (format2
          ", a Role named %q granting create,delete,get,list,update on konveyor.io skillcards, and a RoleBinding named %q binding the two"
          (runes enumerator_role_name) (runes enumerator_role_name)))
      (forbidden m)
rbac_error ns account e =
    call (format1 "preparing the enumerator's identity in namespace %s" (runes ns)) e

-- the subject that the role is bound to
abbrev pub enumerator_subject : Name → Name → Subject
enumerator_subject ns account = record {
  api_group = [];
  kind = codes "ServiceAccount";
  name = account;
  namespace = ns;
}

puts : {A : Type 0} → (A → IdentityWrite) → Option A → List IdentityWrite
puts put none = []
puts put (some a) = put a ∷ []

-- what the API server has been asked for, and the identity or the error that ended it
abbrev pub Preparation : Type 0
Preparation = List IdentityWrite × Result EnumerationError Identity

ensured : Name → Name → Put ServiceAccount → Put Role → Put RoleBinding → Preparation
unfolding rbac_error puts
ensured ns account (p, err e) role binding = (puts put_account p, err (rbac_error ns account e))
ensured ns account (p, ok sa) (q, err e) binding =
    (puts put_account p ++ puts put_role q, err (rbac_error ns account e))
ensured ns account (p, ok sa) (q, ok role) (r, err e) =
    (puts put_account p ++ puts put_role q ++ puts put_binding r, err (rbac_error ns account e))
ensured ns account (p, ok sa) (q, ok role) (r, ok binding) = (
  puts put_account p ++ puts put_role q ++ puts put_binding r,
  ok (record { account = sa; role = role; binding = binding }),
)

abbrev new_account : Name → Name → ServiceAccount
new_account ns account = record { uid = []; name = account; namespace = ns; labels = [] }

abbrev new_role : Name → Role
new_role ns = record {
  uid = [];
  name = enumerator_role_name;
  namespace = ns;
  labels = [];
  rules = [];
}

abbrev new_binding : Name → RoleBinding
new_binding ns = record {
  uid = [];
  name = enumerator_role_name;
  namespace = ns;
  labels = [];
  role_ref = record { api_group = []; kind = []; name = [] };
  subjects = [];
}

account_of : IdentityStore → Name → Name → Put ServiceAccount
unfolding create_or_update label_account
account_of store ns account =
    let fresh = new_account ns account in
    create_or_update store.account.write fresh label_account
      (store.account.find fresh.namespace fresh.name)

role_of : IdentityStore → Name → Put Role
unfolding create_or_update grant
role_of store ns =
    let fresh = new_role ns in
    create_or_update store.role.write fresh grant (store.role.find fresh.namespace fresh.name)

binding_of : IdentityStore → Name → Name → Put RoleBinding
unfolding create_or_update bind
binding_of store ns account =
    let fresh = new_binding ns in
    create_or_update store.binding.write fresh (bind ns (enumerator_subject ns account))
      (store.binding.find fresh.namespace fresh.name)

-- `ensureEnumeratorRBAC`
unfoldable pub ensure_enumerator_rbac : IdentityStore → Name → Name → Preparation
unfolding ensured account_of role_of binding_of
ensure_enumerator_rbac store ns account =
    ensured ns account (account_of store ns account) (role_of store ns)
      (binding_of store ns account)
