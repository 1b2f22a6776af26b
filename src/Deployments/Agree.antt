-- ===== src/Deployments/Agree.antt =====
-- That what src/context.ts settles on fits together: group, cluster and program are of one deployment.
use fermi_v1_sdk.Base.{
  ◌≡◌, ◌≢◌, inl, inr, refl, sym, ◌∙◌, ap, subst, Bool, true, false, not, ◌&&◌, List, [], ◌∷◌, map,
  All, Option, none, some, Result, ok, err, Text, codes, text_eq, text_eq→eq, text_eq_refl, any,
  if◌then◌else◌, Bool-cases, Option-cases, some_injective, from_bind, from_throw, ok_injective,
  not-false,
}
use fermi_v1_sdk.Platform.{Platform}
use fermi_v1_sdk.Context.Fallbacks.{Member}
use fermi_v1_sdk.Deployments.Known.{FermiV1Deployment}
use fermi_v1_sdk.Deployments.{
  fermi_v1_deployments, prototype_names, Found, own, inherited, find_own, read_property,
  get_fermi_v1_deployment, require_fermi_v1_deployment, find_group,
  find_fermi_v1_deployment_by_group, KeyInput, key, text, ContextConfig, Resolved, is_given,
  text_or, field_of, to_public_key, has_group, as_deployment, resolve_deployment_for_group,
  on_cluster, chosen_program, resolve_program_id_for_group, chosen_group, is_missing,
  resolve_config,
}

-- A deployment of the registry.
abbrev pub IsKnown : FermiV1Deployment → Type 0
IsKnown d = Member d (map (λ e. e.1) fermi_v1_deployments)

find_own-Member :
    (name : Text) (r : List (Text × FermiV1Deployment)) {d : FermiV1Deployment}
    → find_own name r ≡ some d
    → Member d (map (λ e. e.1) r)
unfolding find_own
find_own-Member name [] h = cc
find_own-Member name ((k, x) ∷ r) {d} h = elim (Bool-cases (text_eq k name)) [
  | inl e ↦ let same : some x ≡ some d = rw e at h in inl (some_injective same)
  | inr e ↦ let more : find_own name r ≡ some d = rw e at h in inr (find_own-Member name r more)
]

find_group-Member :
    (group : Text) (r : List (Text × FermiV1Deployment)) {d : FermiV1Deployment}
    → find_group group r ≡ some d
    → Member d (map (λ e. e.1) r) × (d.group ≡ group)
unfolding find_group
find_group-Member group [] h = cc
find_group-Member group ((k, x) ∷ r) {d} h = elim (Bool-cases (text_eq x.group group)) [
  | inl e ↦
      let same : some x ≡ some d = rw e at h in
      (
        inl (some_injective same),
        subst (λ (y : FermiV1Deployment). y.group ≡ group) (some_injective same) (text_eq→eq _ _ e),
      )
  | inr e ↦
      let more : find_group group r ≡ some d = rw e at h in
      let (m, g) = find_group-Member group r more in (inr m, g)
]

no_group :
    (group : Text) (r : List (Text × FermiV1Deployment))
    → find_group group r ≡ none
    → All (λ (e : Text × FermiV1Deployment). e.1.group ≢ group) r
unfolding find_group
no_group group [] h = tt
no_group group ((k, x) ∷ r) h = elim (Bool-cases (text_eq x.group group)) [
  | inl e ↦ let no : some x ≡ none = rw e at h in cc
  | inr e ↦
      let more : find_group group r ≡ none = rw e at h in
      (
        λ q. let yes_eq : text_eq x.group group ≡ true = rw q (text_eq_refl group) in cc,
        no_group group r more,
      )
]

deployment_or : FermiV1Deployment → Found → FermiV1Deployment
deployment_or x (own d) = d
deployment_or x inherited = x

read_property-own :
    (name : Text) {d : FermiV1Deployment} → read_property name ≡ some (own d) → IsKnown d
unfolding read_property deployment_or
read_property-own name {d} h = elim (Option-cases (find_own name fermi_v1_deployments)) [
  | inl e ↦
      let rest : (if any (λ n. text_eq n name) prototype_names then some inherited else none)
          ≡ some (own d) =
        rw (e, read_property) at h in
      no_inherited (any (λ n. text_eq n name) prototype_names) rest
  | inr (x, e) ↦
      let same : some (own x) ≡ some (own d) = rw (e, read_property) at h in
      subst IsKnown (ap (deployment_or x) (some_injective same))
        (find_own-Member name fermi_v1_deployments e)
]
  where
    no_inherited : {P : Type 0} (b : Bool) → (if b then some inherited else none) ≡ some (own d) → P
    no_inherited true h = let e : inherited ≡ own d = some_injective h in cc
    no_inherited false h = cc

get-own :
    (name : Option Text) {d : FermiV1Deployment}
    → get_fermi_v1_deployment name ≡ some (own d)
    → IsKnown d
unfolding get_fermi_v1_deployment
get-own none h = cc
get-own (some []) h = cc
get-own (some (c ∷ s)) h = read_property-own (c ∷ s) h

require-get :
    (name : Text) {f : Found}
    → require_fermi_v1_deployment name ≡ ok f
    → get_fermi_v1_deployment (some name) ≡ some f
unfolding require_fermi_v1_deployment
require-get name {f} h = elim (Option-cases (get_fermi_v1_deployment (some name))) [
  | inl e ↦
      let no : err "unknown Fermi v1 deployment" ≡ ok f =
        rw (e, require_fermi_v1_deployment) at h in
      cc
  | inr (x, e) ↦
      let same : ok x ≡ ok f = rw (e, require_fermi_v1_deployment) at h in
      subst (λ y. get_fermi_v1_deployment (some name) ≡ some y) (ok_injective same) e
]

module _ (W : Platform) (new_public_key : Text → Result W.PublicKey) where
  open W use {PublicKey, to_base58}

  -- The deployment of a group: the named one, or else the one with that group, or none at all.
  abbrev pub Chosen : PublicKey → Option Text → Option FermiV1Deployment → Type 0
  Chosen group name (some d) = IsKnown d × (d.group ≡ to_base58 group)
  Chosen group name none =
      (is_given name ≡ false)
      × All (λ (e : Text × FermiV1Deployment). e.1.group ≢ to_base58 group) fermi_v1_deployments

  by_group :
      (group : PublicKey) (name : Option Text) {o : Option FermiV1Deployment}
      → is_given name ≡ false
      → ok (find_group (to_base58 group) fermi_v1_deployments) ≡ ok o
      → Chosen group name o
  by_group group name {o} absent h =
      elim (Option-cases (find_group (to_base58 group) fermi_v1_deployments)) [
        | inl e ↦
            subst (Chosen group name) (sym e ∙ ok_injective h)
              (absent, no_group (to_base58 group) fermi_v1_deployments e)
        | inr (d, e) ↦
            subst (Chosen group name) (sym e ∙ ok_injective h)
              (find_group-Member (to_base58 group) fermi_v1_deployments e)
      ]

  has_group-own :
      (group : PublicKey) (name : Option Text) (f : Found)
      → get_fermi_v1_deployment name ≡ some f
      → has_group W new_public_key (to_base58 group) f ≡ true
      → Chosen group name (as_deployment W new_public_key f)
  has_group-own group name (own d) e h = (get-own name e, text_eq→eq _ _ h)
  has_group-own group name inherited e h = cc

  resolve_deployment-Chosen :
      (group : PublicKey) (name : Option Text) {o : Option FermiV1Deployment}
      → resolve_deployment_for_group W new_public_key (key group) name ≡ ok o
      → Chosen group name o
  unfolding resolve_deployment_for_group find_fermi_v1_deployment_by_group
  resolve_deployment-Chosen group none h = by_group group none refl h
  resolve_deployment-Chosen group (some []) h = by_group group (some []) refl h
  resolve_deployment-Chosen group (some (c ∷ s)) h =
      from_bind (require_fermi_v1_deployment (c ∷ s)) _ h λ f ef h1.
        from_throw (not (has_group W new_public_key (to_base58 group) f)) _ _ h1 λ t h2.
          subst (Chosen group (some (c ∷ s))) (ok_injective h2)
            (has_group-own group (some (c ∷ s)) f (require-get (c ∷ s) ef) (not-false _ t))

  -- The program: given, and then the deployment's own if there is one; or else made from the
  -- deployment's text.
  abbrev pub ProgramOf : Option FermiV1Deployment → Option (KeyInput PublicKey) → PublicKey → Type 0
  ProgramOf (some d) (some input) program =
      (to_public_key W new_public_key input ≡ ok program) × (d.program_id ≡ to_base58 program)
  ProgramOf (some d) none program = new_public_key d.program_id ≡ ok program
  ProgramOf none (some input) program = to_public_key W new_public_key input ≡ ok program
  ProgramOf none none program = ⊥

  chosen_program-ProgramOf :
      (o : Option FermiV1Deployment) (input : Option (KeyInput PublicKey)) {program : PublicKey}
      → chosen_program W new_public_key o input ≡ ok program
      → ProgramOf o input program
  chosen_program-ProgramOf (some d) (some input) h =
      from_bind (to_public_key W new_public_key input) _ h λ k ek h1.
        from_throw (not (text_eq d.program_id (to_base58 k))) _ _ h1 λ t h2.
          subst (ProgramOf (some d) (some input)) (ok_injective h2)
            (ek, text_eq→eq _ _ (not-false _ t))
  chosen_program-ProgramOf (some d) none h = h
  chosen_program-ProgramOf none (some input) h =
      from_bind (to_public_key W new_public_key input) _ h
        λ k ek h1. subst (ProgramOf none (some input)) (ok_injective h1) ek
  chosen_program-ProgramOf none none h = cc

  abbrev pub OnCluster : Option FermiV1Deployment → Text → Type 0
  OnCluster none cluster = Unit
  OnCluster (some d) cluster = d.cluster ≡ cluster

  on_cluster-OnCluster :
      (cluster : Text) (o : Option FermiV1Deployment)
      → on_cluster W new_public_key cluster o ≡ true
      → OnCluster o cluster
  on_cluster-OnCluster cluster none h = tt
  on_cluster-OnCluster cluster (some d) h = text_eq→eq _ _ h

  abbrev pub GroupOf : Option (KeyInput PublicKey) → PublicKey → Type 0
  GroupOf none group = Unit
  GroupOf (some (key k)) group = k ≡ group
  GroupOf (some (text [])) group = Unit
  GroupOf (some (text (c ∷ s))) group = new_public_key (c ∷ s) ≡ ok group

  chosen_group-GroupOf :
      (input : Option (KeyInput PublicKey)) (named : Option Found) {group : PublicKey}
      → chosen_group W new_public_key input named ≡ ok group
      → GroupOf input group
  unfolding chosen_group
  chosen_group-GroupOf none named h = tt
  chosen_group-GroupOf (some (key k)) named h = ok_injective h
  chosen_group-GroupOf (some (text [])) named h = tt
  chosen_group-GroupOf (some (text (c ∷ s))) named h = h

  resolve_program-Parts :
      (cluster : Text) (group : PublicKey) (input : Option (KeyInput PublicKey))
      (name : Option Text) (o : Option FermiV1Deployment) {program : PublicKey}
      → resolve_deployment_for_group W new_public_key (key group) name ≡ ok o
      → resolve_program_id_for_group W new_public_key cluster (key group) input name ≡ ok program
      → OnCluster o cluster × ProgramOf o input program
  unfolding resolve_program_id_for_group
  resolve_program-Parts cluster group input name o {program} e h =
      from_bind (resolve_deployment_for_group W new_public_key (key group) name) _ h λ o' eo h1.
        from_throw (not (on_cluster W new_public_key cluster o')) _ _ h1 λ t h2.
          subst (λ x. OnCluster x cluster × ProgramOf x input program) (ok_injective (sym eo ∙ e))
            (on_cluster-OnCluster cluster o' (not-false _ t), chosen_program-ProgramOf o' input h2)

  -- Group, cluster and program of a context are those of one registered deployment, or of none.
  pub record Agrees (config : ContextConfig PublicKey) (r : Resolved PublicKey) : Type 0 where
    pub chosen : Chosen r.group_pk config.deployment r.deployment
    pub cluster : OnCluster r.deployment r.cluster
    pub program : ProgramOf r.deployment config.program_id r.program_id
    pub group : GroupOf config.group_pk r.group_pk

  -- What a context's configuration is resolved to fits together. With a deployment, that is one of the
  -- registry, its group and its cluster are those of the context, and its program is the context's, also
  -- where a program was given. Without one, no deployment was named, none of the registry has this group,
  -- and the program is the one given. A group that was given is kept, unless it is the empty text.
  pub resolve_config-Agrees :
      (config : ContextConfig PublicKey) {r : Resolved PublicKey}
      → resolve_config W new_public_key config ≡ ok r
      → Agrees config r
  unfolding resolve_config
  resolve_config-Agrees config h =
      from_throw
        (is_given config.deployment
          && is_missing W new_public_key (get_fermi_v1_deployment config.deployment))
        _ _ h
        λ t h1.
          from_bind
            (chosen_group W new_public_key config.group_pk
              (get_fermi_v1_deployment config.deployment))
            _ h1
            λ group eg h2.
              from_bind
                (resolve_deployment_for_group W new_public_key (key group) config.deployment) _ h2
                λ o eo h3.
                  let cluster : Text = text_or config.cluster (
                    text_or (field_of (λ (d : FermiV1Deployment). some d.cluster) o)
                      (codes "devnet")) in
                  from_bind
                    (resolve_program_id_for_group W new_public_key cluster (key group)
                      config.program_id config.deployment)
                    _ h3
                    λ program ep h4.
                      let (on, is_program) =
                        resolve_program-Parts cluster group config.program_id config.deployment o eo
                          ep in
                      subst (Agrees config) (ok_injective h4) (record {
                        chosen = resolve_deployment-Chosen group config.deployment eo;
                        cluster = on;
                        program = is_program;
                        group = chosen_group-GroupOf config.group_pk _ eg;
                      })
