-- ===== src/SkillCollection/Identity/Granted.antt =====
-- What the identity of an enumeration Job may do.
use agentic_controller.Prelude.{
  ap, ◌∙◌, List, [], ◌∷◌, ◌++◌, arith, ◌≡◌, refl, true, not, Option, none, some, Result, ok, err,
  ok_inj, err_ok, if◌then◌else◌, Bool-cases, inl, inr,
}
use mathlib.Core.Path.{subst}
use agentic_controller.Text.{codes, equal_texts}
use agentic_controller.Text.Split.{is_nil}
use agentic_controller.SkillCollection.{Name, CallError, failing}
use agentic_controller.SkillCollection.Identity.{
  ServiceAccount, Role, Subject, RoleBinding, IdentityStore, Identity, IdentityWrite, put_account,
  put_role, put_binding, Put, enumerator_role_name, enumerator_rules, enumerator_subject,
  is_enumerator_role, written, changed, create_or_update, label_account, label_role, grant,
  fresh_binding, conflict, with_subject, bind, puts, ensured, ensure_enumerator_rbac, account_of,
  role_of, binding_of, new_account, new_role, new_binding,
}
use agentic_controller.SkillCollection.Identity.Binding.{
  is_enumerator_role-Binds, anew, is_fresh, Binds, with_subject-Binds,
}

abbrev or_fresh : {A : Type 0} → A → Option A → A
or_fresh fresh none = fresh
or_fresh fresh (some a) = a

-- The API server answers with the object that it is asked for.
pub record IsKeyed (store : IdentityStore) : Type 0 where
  pub account :
      (ns n : Name) (a : ServiceAccount)
      → store.account.find ns n ≡ ok (some a)
      → (a.name ≡ n) × (a.namespace ≡ ns)
  pub role :
      (ns n : Name) (r : Role)
      → store.role.find ns n ≡ ok (some r)
      → (r.name ≡ n) × (r.namespace ≡ ns)
  pub binding :
      (ns n : Name) (b : RoleBinding)
      → store.binding.find ns n ≡ ok (some b)
      → (b.name ≡ n) × (b.namespace ≡ ns)

-- The role grants what the Job needs and no more, and is bound to the account by its name; all three
-- stand in the namespace, and the API server has been asked for them and has taken them.
pub record IsGranted (store : IdentityStore) (ns account : Name) (writes : List IdentityWrite)
    (i : Identity) : Type 0 where
  pub account_named : (i.account.name ≡ account) × (i.account.namespace ≡ ns)
  pub role_namespace : i.role.namespace ≡ ns
  pub binding_namespace : i.binding.namespace ≡ ns
  pub refers :
      (equal_texts i.binding.role_ref.kind (codes "Role") ≡ true)
      × (equal_texts i.binding.role_ref.name i.role.name ≡ true)
  pub rules : i.role.rules ≡ enumerator_rules
  pub met : Option RoleBinding
  pub found : store.binding.find ns enumerator_role_name ≡ ok met
  pub binds : Binds (enumerator_subject ns account) met i.binding
  pub asked : writes ≡ put_account i.account ∷ put_role i.role ∷ put_binding i.binding ∷ []
  pub account_stored : store.account.write i.account ≡ none
  pub role_stored : store.role.write i.role ≡ none
  pub binding_stored : store.binding.write i.binding ≡ none

-- what `create_or_update` leaves where it succeeds
record Made {A : Type 0} (write : A → Option CallError) (fresh : A)
    (change : A → Result CallError A) (found : Result CallError (Option A)) (p : Option A) (b : A)
    : Type 0 where
  met : Option A
  met_found : found ≡ ok met
  change_ok : change (or_fresh fresh met) ≡ ok b
  put : p ≡ some b
  stored : write b ≡ none

record Written {A : Type 0} (write : A → Option CallError) (r : Result CallError A) (p : Option A)
    (b : A) : Type 0 where
  made : r ≡ ok b
  sent : p ≡ some b
  taken : write b ≡ none

written-ok :
    {A : Type 0} (write : A → Option CallError) (a : A) (o : Option CallError) (b : A)
    → write a ≡ o
    → written a o ≡ ok b
    → Written write (ok a) (some a) b
unfolding written
written-ok write a none b w h = record {
  made = h;
  sent = ap some (ok_inj h);
  taken = subst (λ x. write x ≡ none) (ok_inj h) w;
}
written-ok write a (some e) b w h = err_ok h

changed-ok :
    {A : Type 0} (write : A → Option CallError) (r : Result CallError A) (b : A)
    → (changed write r).1 ≡ ok b
    → Written write r (changed write r).0 b
unfolding changed
changed-ok write (err e) b h = err_ok h
changed-ok write (ok a) b h = written-ok write a (write a) b refl h

create_or_update-ok :
    {A : Type 0} (write : A → Option CallError) (fresh : A) (change : A → Result CallError A)
    (found : Result CallError (Option A)) (b : A)
    → (create_or_update write fresh change found).1 ≡ ok b
    → Made write fresh change found (create_or_update write fresh change found).0 b
unfolding create_or_update
create_or_update-ok write fresh change (err e) b h = err_ok h
create_or_update-ok write fresh change (ok none) b h =
    let w = changed-ok write (change fresh) b h in
    record { met = none; met_found = refl; change_ok = w.made; put = w.sent; stored = w.taken }
create_or_update-ok write fresh change (ok (some a)) b h =
    let w = changed-ok write (change a) b h in
    record { met = some a; met_found = refl; change_ok = w.made; put = w.sent; stored = w.taken }

-- what holds of the fresh object and of the one that there is, and is kept by the change, holds
kept :
    {A : Type 0} (P : A → Type 0) (fresh : A) (change : A → Result CallError A)
    (found : Result CallError (Option A)) (met : Option A) (b : A)
    → P fresh
    → ((a : A) → found ≡ ok (some a) → P a)
    → ((a : A) → P a → change a ≡ ok b → P b)
    → found ≡ ok met
    → change (or_fresh fresh met) ≡ ok b
    → P b
kept P fresh change found none b f g k e h = k fresh f h
kept P fresh change found (some a) b f g k e h = k a (g a e) h

ok_back :
    {A : Type 0} (P : A → Type 0) {a b : A} → ◌≡◌ {A = Result CallError A} (ok a) (ok b) → P a → P b
ok_back P h p = subst P (ok_inj h) p

fresh_binding-Binds :
    (s : Subject) (old : RoleBinding) (found : Option RoleBinding)
    → is_fresh found ≡ true
    → Binds s found (fresh_binding s old)
unfolding fresh_binding equal_texts
fresh_binding-Binds s old found e = anew {b = fresh_binding s old} e refl refl

known-Binds :
    (ns : Name) (s : Subject) (old b : RoleBinding)
    → (if not (is_enumerator_role old.role_ref)
        then err (failing (conflict ns s old))
        else ok (with_subject s old))
      ≡ ok b
    → Binds s (some old) b
known-Binds ns s old b = elim (Bool-cases (is_enumerator_role old.role_ref)) [
  | inl e ↦ rw e (λ h. ok_back (Binds s (some old)) h (with_subject-Binds s old e))
  | inr e ↦ rw e (λ h. err_ok h)
]

bind-Binds :
    (ns : Name) (s : Subject) (fresh : RoleBinding) (found : Option RoleBinding) (b : RoleBinding)
    → is_nil fresh.uid ≡ true
    → bind ns s (or_fresh fresh found) ≡ ok b
    → Binds s found b
unfolding bind
bind-Binds ns s fresh none b f =
    rw f (λ h. ok_back (Binds s none) h (fresh_binding-Binds s fresh none refl))
bind-Binds ns s fresh (some old) b f = elim (Bool-cases (is_nil old.uid)) [
  | inl e ↦ rw e (λ h. ok_back (Binds s (some old)) h (fresh_binding-Binds s old (some old) e))
  | inr e ↦ rw e (known-Binds ns s old b)
]

grant-rules : (old role : Role) → grant old ≡ ok role → role.rules ≡ enumerator_rules
unfolding grant
grant-rules old role h = ok_back (λ r. r.rules ≡ enumerator_rules) h refl

grant-name :
    (old role : Role)
    → grant old ≡ ok role
    → (role.name ≡ old.name) × (role.namespace ≡ old.namespace)
unfolding grant label_role
grant-name old role h =
    ok_back (λ r. (r.name ≡ old.name) × (r.namespace ≡ old.namespace)) h
      (ground arith, ground arith)

label_account-name :
    (old sa : ServiceAccount)
    → label_account old ≡ ok sa
    → (sa.name ≡ old.name) × (sa.namespace ≡ old.namespace)
unfolding label_account
label_account-name old sa h =
    ok_back (λ a. (a.name ≡ old.name) × (a.namespace ≡ old.namespace)) h
      (ground arith, ground arith)

abbrev SameKey : RoleBinding → RoleBinding → Type 0
SameKey old b = (b.name ≡ old.name) × (b.namespace ≡ old.namespace)

bind-name : (ns : Name) (s : Subject) (old b : RoleBinding) → bind ns s old ≡ ok b → SameKey old b
unfolding bind fresh_binding with_subject
bind-name ns s old b = elim (Bool-cases (is_nil old.uid)) [
  | inl e ↦ rw e (λ h. ok_back (SameKey old) h (refl, refl))
  | inr e ↦ rw e (elim (Bool-cases (is_enumerator_role old.role_ref)) [
    | inl r ↦ rw r (λ h. ok_back (SameKey old) h (ground arith, ground arith))
    | inr r ↦ rw r (λ h. err_ok h)
  ])
]

-- the three objects of an identity that has been prepared
record Parts (ns account : Name) (store : IdentityStore) (writes : List IdentityWrite)
    (i : Identity) : Type 0 where
  account_ok : (account_of store ns account).1 ≡ ok i.account
  role_ok : (role_of store ns).1 ≡ ok i.role
  binding_ok : (binding_of store ns account).1 ≡ ok i.binding
  writes_are :
      writes
      ≡ puts put_account (account_of store ns account).0
        ++ puts put_role (role_of store ns).0
        ++ puts put_binding (binding_of store ns account).0

ensured-Parts :
    (store : IdentityStore) (ns account : Name) (a : Put ServiceAccount) (r : Put Role)
    (b : Put RoleBinding) (i : Identity)
    → account_of store ns account ≡ a
    → role_of store ns ≡ r
    → binding_of store ns account ≡ b
    → (ensured ns account a r b).1 ≡ ok i
    → Parts ns account store (ensured ns account a r b).0 i
unfolding ensured
ensured-Parts store ns account (p, err e) r b i h k l m = err_ok m
ensured-Parts store ns account (p, ok sa) (q, err e) b i h k l m = err_ok m
ensured-Parts store ns account (p, ok sa) (q, ok role) (r, err e) i h k l m = err_ok m
ensured-Parts store ns account (p, ok sa) (q, ok role) (r, ok b) i h k l m =
    let same = ok_inj m in
    record {
      account_ok = rw h (ap (λ (j : Identity). ok j.account) same);
      role_ok = rw k (ap (λ (j : Identity). ok j.role) same);
      binding_ok = rw l (ap (λ (j : Identity). ok j.binding) same);
      writes_are = rw (h, k, l) refl;
    }

-- An identity that has been prepared grants exactly the rights on SkillCards, in the namespace, through a
-- binding of that role, by its name, to the account of the Job; the binding keeps the labels and the
-- subjects of one that was there before. The API server has been asked for these three objects and
-- nothing else, and has taken them. It is taken to answer with the objects that it is asked for.
pub ensure_enumerator_rbac-IsGranted :
    (store : IdentityStore) (law : IsKeyed store) (ns account : Name) (i : Identity)
    → (ensure_enumerator_rbac store ns account).1 ≡ ok i
    → IsGranted store ns account (ensure_enumerator_rbac store ns account).0 i
unfolding ensure_enumerator_rbac account_of role_of binding_of puts
ensure_enumerator_rbac-IsGranted store law ns account i h =
    let name = enumerator_role_name in
    let parts =
      ensured-Parts store ns account (account_of store ns account) (role_of store ns)
        (binding_of store ns account) i refl refl refl h in
    let sa =
      create_or_update-ok store.account.write (new_account ns account) label_account
        (store.account.find ns account) i.account parts.account_ok in
    let role =
      create_or_update-ok store.role.write (new_role ns) grant (store.role.find ns name) i.role
        parts.role_ok in
    let binding =
      create_or_update-ok store.binding.write (new_binding ns)
        (bind ns (enumerator_subject ns account)) (store.binding.find ns name) i.binding
        parts.binding_ok in
    let binds =
      bind-Binds ns (enumerator_subject ns account) (new_binding ns) binding.met i.binding refl
        binding.change_ok in
    let account_named =
      kept (λ (a : ServiceAccount). (a.name ≡ account) × (a.namespace ≡ ns))
        (new_account ns account) label_account (store.account.find ns account) sa.met i.account
        (refl, refl) (law.account ns account)
        (λ a k e. let same = label_account-name a i.account e in (same.0 ∙ k.0, same.1 ∙ k.1))
        sa.met_found sa.change_ok in
    let role_named =
      kept (λ (r : Role). (r.name ≡ name) × (r.namespace ≡ ns)) (new_role ns) grant
        (store.role.find ns name) role.met i.role (refl, refl) (law.role ns name)
        (λ a k e. let same = grant-name a i.role e in (same.0 ∙ k.0, same.1 ∙ k.1)) role.met_found
        role.change_ok in
    let binding_named =
      kept (λ (b : RoleBinding). (b.name ≡ name) × (b.namespace ≡ ns)) (new_binding ns)
        (bind ns (enumerator_subject ns account)) (store.binding.find ns name) binding.met i.binding
        (refl, refl) (law.binding ns name)
        (λ a k e.
          let same = bind-name ns (enumerator_subject ns account) a i.binding e in
          (same.0 ∙ k.0, same.1 ∙ k.1))
        binding.met_found binding.change_ok in
    let refers =
      is_enumerator_role-Binds (enumerator_subject ns account) binding.met i.binding binds in
    record {
      account_named = account_named;
      role_namespace = role_named.1;
      binding_namespace = binding_named.1;
      refers = (ground (arith, refers), rw role_named.0 (ground (arith, refers)));
      rules = grant-rules (or_fresh (new_role ns) role.met) i.role role.change_ok;
      met = binding.met;
      found = binding.met_found;
      binds = binds;
      asked = parts.writes_are ∙ rw (sa.put, role.put, binding.put) refl;
      account_stored = sa.stored;
      role_stored = role.stored;
      binding_stored = binding.stored;
    }
