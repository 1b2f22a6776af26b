-- ===== src/Deployments/Tests.antt =====
-- The resolution of src/context.ts on the deployment of src/deployments.ts.
use fermi_v1_sdk.Base.{
  ℕ, zero, suc, ◌≡◌, refl, ap, arith, cons_parts, length, ◌==◌, if◌then◌else◌, [], ◌∷◌, Option,
  none, some, Result, ok, err, Text, codes, text_eq,
}
use fermi_v1_sdk.Platform.{Platform}
use fermi_v1_sdk.Platform.Sample.{sample_platform}
use fermi_v1_sdk.Deployments.Known.{fermi_r9_mainnet}
use fermi_v1_sdk.Deployments.{
  Found, inherited, read_property, get_fermi_v1_deployment, require_fermi_v1_deployment,
  fermi_v1_deployments, prototype_names, find_fermi_v1_deployment_by_group, key, ContextConfig,
  Resolved, resolve_config,
}
use fermi_v1_sdk.Deployments.Agree.{Agrees, resolve_config-Agrees}

r9_by_name :
    get_fermi_v1_deployment (some (codes "fermi-r9-mainnet")) ≡ some (Found.own fermi_r9_mainnet)
unfolding get_fermi_v1_deployment read_property fermi_v1_deployments text_eq
r9_by_name = refl

r6_unknown :
    require_fermi_v1_deployment (codes "fermi-r6-mainnet") ≡ err "unknown Fermi v1 deployment"
unfolding require_fermi_v1_deployment get_fermi_v1_deployment fermi_v1_deployments prototype_names
    text_eq
r6_unknown = refl

constructor_found : get_fermi_v1_deployment (some (codes "constructor")) ≡ some inherited
unfolding get_fermi_v1_deployment fermi_v1_deployments prototype_names text_eq
constructor_found = refl

-- Key 0 is the group of the deployment, key 1 its program.
abbrev named_text : ℕ → Text
named_text zero = fermi_r9_mainnet.group
named_text (suc zero) = fermi_r9_mainnet.program_id
named_text (suc (suc k)) = k ∷ []

named_text_injective : (a b : ℕ) → named_text a ≡ named_text b → a ≡ b
named_text_injective zero zero h = refl
named_text_injective (suc zero) (suc zero) h = refl
named_text_injective (suc (suc a)) (suc (suc b)) h = ap (λ n. suc (suc n)) ((cons_parts h).0)
named_text_injective zero (suc zero) h = absurd (omega (arith, (cons_parts h).0))
named_text_injective zero (suc (suc b)) h = absurd (omega (arith, ap length h))
named_text_injective (suc zero) zero h = absurd (omega (arith, (cons_parts h).0))
named_text_injective (suc zero) (suc (suc b)) h = absurd (omega (arith, ap length h))
named_text_injective (suc (suc a)) zero h = absurd (omega (arith, ap length h))
named_text_injective (suc (suc a)) (suc zero) h = absurd (omega (arith, ap length h))

abbrev named_platform : Platform
named_platform = record sample_platform {
  to_base58 = named_text;
  to_base58_injective = named_text_injective;
}

abbrev parse : Text → Result ℕ
parse [] = err "Invalid public key input"
parse (c ∷ t) = if c == b'2' then ok 0 else ok 1

abbrev config : Option Text → ContextConfig ℕ
config cluster = record {
  cluster = cluster;
  cluster_url = none;
  deployment = none;
  gateway_url = none;
  gateway_grpc_addr = none;
  group_pk = some (key 0);
  program_id = none;
}

abbrev resolved : Resolved ℕ
resolved = record {
  cluster = codes "mainnet-beta";
  cluster_url = fermi_r9_mainnet.rpc_url;
  group_pk = 0;
  program_id = 1;
  gateway_url = fermi_r9_mainnet.gateway_url;
  gateway_grpc_addr = fermi_r9_mainnet.gateway_grpc_addr;
  deployment = some fermi_r9_mainnet;
}

by_group_eq : resolve_config named_platform parse (config none) ≡ ok resolved
unfolding resolve_config find_fermi_v1_deployment_by_group fermi_v1_deployments
    get_fermi_v1_deployment text_eq
by_group_eq = refl

other_cluster :
    resolve_config named_platform parse (config (some (codes "devnet")))
    ≡ err "deployment is on another cluster"
unfolding resolve_config find_fermi_v1_deployment_by_group fermi_v1_deployments
    get_fermi_v1_deployment text_eq
other_cluster = refl

resolve_config-Agrees_example : Agrees named_platform parse (config none) resolved
resolve_config-Agrees_example = resolve_config-Agrees named_platform parse (config none) by_group_eq
