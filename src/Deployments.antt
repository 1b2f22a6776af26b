-- ===== src/Deployments.antt =====
-- src/deployments.ts, and how src/context.ts settles on a deployment, a group and a program.
pub mod Known
pub mod Agree
mod Tests
use fermi_v1_sdk.Base.{
  ℕ, Bool, true, false, not, ◌&&◌, List, [], ◌∷◌, Option, none, some, Result, ok, err, ◌>>=◌, ◌>>◌,
  throw_if, Text, codes, text_eq, any, ◌==◌, if◌then◌else◌,
}
use fermi_v1_sdk.Platform.{Platform}
use fermi_v1_sdk.Deployments.Known.{FermiV1Deployment, FermiV1MarketDeployment, fermi_r9_mainnet}

-- `FERMI_V1_DEPLOYMENTS`: the object's own properties, each under its deployment's name
unfoldable pub fermi_v1_deployments : List (Text × FermiV1Deployment)
fermi_v1_deployments = (fermi_r9_mainnet.name, fermi_r9_mainnet) ∷ []

-- The names under which a plain object has a property from `Object.prototype`.
unfoldable pub prototype_names : List Text
prototype_names =
    codes "constructor"
    ∷ codes "__defineGetter__"
    ∷ codes "__defineSetter__"
    ∷ codes "hasOwnProperty"
    ∷ codes "__lookupGetter__"
    ∷ codes "__lookupSetter__"
    ∷ codes "isPrototypeOf"
    ∷ codes "propertyIsEnumerable"
    ∷ codes "toString"
    ∷ codes "valueOf"
    ∷ codes "__proto__"
    ∷ codes "toLocaleString"
    ∷ []

-- What reading a property of that object gives: a deployment, or something inherited that is none.
pub data Found : Type 0 where
  own : FermiV1Deployment → Found
  inherited : Found

unfoldable pub find_own : Text → List (Text × FermiV1Deployment) → Option FermiV1Deployment
find_own name [] = none
find_own name ((k, d) ∷ rest) = if text_eq k name then some d else find_own name rest

unfoldable pub read_property : Text → Option Found
unfolding find_own
read_property name = elim (find_own name fermi_v1_deployments) [
  | some d ↦ some (own d)
  | none ↦ if any (λ n. text_eq n name) prototype_names then some inherited else none
]

-- An absent name and an empty one are falsy.
unfoldable pub get_fermi_v1_deployment : Option Text → Option Found
unfolding read_property
get_fermi_v1_deployment none = none
get_fermi_v1_deployment (some []) = none
get_fermi_v1_deployment (some (c ∷ s)) = read_property (c ∷ s)

unfoldable pub require_fermi_v1_deployment : Text → Result Found
require_fermi_v1_deployment name = elim (get_fermi_v1_deployment (some name)) [
  | some found ↦ ok found
  | none ↦ err "unknown Fermi v1 deployment"
]

unfoldable pub find_group : Text → List (Text × FermiV1Deployment) → Option FermiV1Deployment
find_group group [] = none
find_group group ((k, d) ∷ rest) = if text_eq d.group group then some d else find_group group rest

unfoldable pub find_fermi_v1_deployment_by_group : Text → Option FermiV1Deployment
unfolding find_group
find_fermi_v1_deployment_by_group group = find_group group fermi_v1_deployments

abbrev pub or_empty_text : Option Text → Text
or_empty_text none = []
or_empty_text (some t) = t

unfoldable pub deployment_env : FermiV1Deployment → List (Text × Text)
deployment_env d =
    (codes "FERMI_DEPLOYMENT", d.name)
    ∷ (codes "CLUSTER", d.cluster)
    ∷ (codes "CLUSTER_URL", d.rpc_url)
    ∷ (codes "PROGRAM_ID", d.program_id)
    ∷ (codes "GROUP_PK", d.group)
    ∷ (codes "USDC_MINT", d.usdc_mint)
    ∷ (codes "FERMI_API_URL", or_empty_text d.gateway_url)
    ∷ (codes "FERMI_API_GRPC_ADDR", or_empty_text d.gateway_grpc_addr)
    ∷ []

unfoldable pub default_cluster_url : Text → Text
default_cluster_url cluster =
    if text_eq cluster (codes "mainnet-beta")
    then codes "https://api.mainnet-beta.solana.com"
    else if text_eq cluster (codes "testnet")
    then codes "https://api.testnet.solana.com"
    else codes "https://api.devnet.solana.com"

-- `string | PublicKey`
pub data KeyInput (K : Type 0) : Type 0 where
  key : K → KeyInput K
  text : Text → KeyInput K

-- The parts of `FermiV1ContextConfig` that are resolved without the network.
pub record ContextConfig (K : Type 0) : Type 0 where
  pub cluster : Option Text
  pub cluster_url : Option Text
  pub deployment : Option Text
  pub gateway_url : Option Text
  pub gateway_grpc_addr : Option Text
  pub group_pk : Option (KeyInput K)
  pub program_id : Option (KeyInput K)

pub record Resolved (K : Type 0) : Type 0 where
  pub cluster : Text
  pub cluster_url : Text
  pub group_pk : K
  pub program_id : K
  pub gateway_url : Option Text
  pub gateway_grpc_addr : Option Text
  pub deployment : Option FermiV1Deployment

abbrev pub is_given : Option Text → Bool
is_given none = false
is_given (some []) = false
is_given (some (c ∷ s)) = true

-- `config.value ?? deployment?.value ?? other`
abbrev pub first_of : Option Text → Option Text → Option Text
first_of (some t) o = some t
first_of none o = o

abbrev pub text_or : Option Text → Text → Text
text_or (some t) d = t
text_or none d = d

-- `deployment?.field`
abbrev pub field_of :
    {A : Type 0} → (FermiV1Deployment → Option A) → Option FermiV1Deployment → Option A
field_of f none = none
field_of f (some d) = f d

-- `new PublicKey(text)` is a library call, which may throw.
module _ (W : Platform) (new_public_key : Text → Result W.PublicKey) where
  open W use {PublicKey, to_base58}

  abbrev pub to_public_key : KeyInput PublicKey → Result PublicKey
  to_public_key (key k) = ok k
  to_public_key (text t) = new_public_key t

  -- `deployment.group !== group`: what is inherited has no group
  abbrev pub has_group : Text → Found → Bool
  has_group group (own d) = text_eq d.group group
  has_group group inherited = false

  abbrev pub as_deployment : Found → Option FermiV1Deployment
  as_deployment (own d) = some d
  as_deployment inherited = none

  unfoldable pub resolve_deployment_for_group :
      KeyInput PublicKey → Option Text → Result (Option FermiV1Deployment)
  resolve_deployment_for_group group_pk name = do
    group ← to_public_key group_pk
    if is_given name
        then (require_fermi_v1_deployment (or_empty_text name) >>= λ found.
            throw_if (not (has_group (to_base58 group) found))
              "FERMI_DEPLOYMENT is for another group"
            >> ok (as_deployment found))
        else ok (find_fermi_v1_deployment_by_group (to_base58 group))

  abbrev pub on_cluster : Text → Option FermiV1Deployment → Bool
  on_cluster cluster none = true
  on_cluster cluster (some d) = text_eq d.cluster cluster

  abbrev pub has_program : Text → Option FermiV1Deployment → Bool
  has_program program none = true
  has_program program (some d) = text_eq d.program_id program

  abbrev pub program_of : Option FermiV1Deployment → Result PublicKey
  program_of none = err "unknown Fermi group; set an explicit programId for this deployment"
  program_of (some d) = new_public_key d.program_id

  abbrev pub chosen_program :
      Option FermiV1Deployment → Option (KeyInput PublicKey) → Result PublicKey
  chosen_program deployment none = program_of deployment
  chosen_program deployment (some input) = to_public_key input >>= λ program.
      throw_if (not (has_program (to_base58 program) deployment))
        "PROGRAM_ID does not match deployment"
      >> ok program

  unfoldable pub resolve_program_id_for_group :
      Text → KeyInput PublicKey → Option (KeyInput PublicKey) → Option Text → Result PublicKey
  unfolding resolve_deployment_for_group
  resolve_program_id_for_group cluster group_pk program_id name = do
    deployment ← resolve_deployment_for_group group_pk name
    throw_if (not (on_cluster cluster deployment)) "deployment is on another cluster"
    chosen_program deployment program_id

  -- `config.groupPk ? … : namedDeployment ? … : undefined`: an empty text is falsy, and what is
  -- inherited has no group to make a key of.
  unfoldable pub chosen_group : Option (KeyInput PublicKey) → Option Found → Result PublicKey
  chosen_group (some (key k)) named = ok k
  chosen_group (some (text (c ∷ s))) named = new_public_key (c ∷ s)
  chosen_group _ (some (own d)) = new_public_key d.group
  chosen_group _ (some inherited) = err "invalid public key input"
  chosen_group _ none = err "missing groupPk; set GROUP_PK or FERMI_DEPLOYMENT"

  abbrev pub is_missing : Option Found → Bool
  is_missing none = true
  is_missing (some f) = false

  -- The start of `createFermiV1Context`, up to the connection.
  unfoldable pub resolve_config : ContextConfig PublicKey → Result (Resolved PublicKey)
  unfolding chosen_group resolve_program_id_for_group
  resolve_config config = do
    let named = get_fermi_v1_deployment config.deployment
    throw_if (is_given config.deployment && is_missing named) "unknown Fermi v1 deployment"
    group ← chosen_group config.group_pk named
    deployment ← resolve_deployment_for_group (key group) config.deployment
    let cluster =
        text_or config.cluster (
          text_or (field_of (λ (d : FermiV1Deployment). some d.cluster) deployment)
            (codes "devnet"))
    program ← resolve_program_id_for_group cluster (key group) config.program_id config.deployment
    ok (record {
      cluster = cluster;
      cluster_url = text_or config.cluster_url (
          text_or (field_of (λ (d : FermiV1Deployment). some d.rpc_url) deployment)
            (default_cluster_url cluster));
      group_pk = group;
      program_id = program;
      gateway_url =
          first_of config.gateway_url
            (field_of (λ (d : FermiV1Deployment). d.gateway_url) deployment);
      gateway_grpc_addr =
          first_of config.gateway_grpc_addr
            (field_of (λ (d : FermiV1Deployment). d.gateway_grpc_addr) deployment);
      deployment = deployment;
    })
