-- ===== src/Sample/Building.antt =====
-- The services behind an OBS library that builds clients for two configurations.
use obs_operator.Base.{
  ◌≡◌, sym, inl, inr, Eq, ◌==◌, Bool-cases, eq-of-==, if◌then◌else◌, nat_eq, string_discrete,
}
use mathlib.Core.Path.{subst}
use obs_operator.Errors.{Result, ok, err}
use obs_operator.Services.{Services, ObsClient, ObsConfig, Request, Reply, new_client}
use obs_operator.Services.Run.{ok_inj}
use obs_operator.Provider.Resolver.Building.{BuildsClients}
use obs_operator.Sample
use obs_operator.Sample.{Store, services, secret, client, service_error}

ObsConfig-discrete : Discrete ObsConfig
ObsConfig-discrete = hlevel string_discrete

instance unfoldable pub obs_config_eq : Eq ObsConfig
unfolding ObsConfig-discrete string_discrete
obs_config_eq = record { dec = ObsConfig-discrete }

abbrev pub first_config : ObsConfig
first_config = record {
  access_key_id = "AK";
  secret_access_key = "SK";
  security_token = "";
  endpoint = "https://obs.eu-de.otc.t-systems.com";
  region = "eu-de";
}

abbrev pub second_config : ObsConfig
second_config = record first_config { access_key_id = "AK2" }

abbrev pub second_client : ObsClient
second_client = record { handle = 8 }

unfoldable pub built : ObsConfig → Result ObsClient
unfolding obs_config_eq
built c =
    if c == first_config
    then ok client
    else if c == second_config
    then ok second_client
    else err (service_error 400 "InvalidConfig")

unfoldable pub perform_building : (q : Request) → Store → Result (Reply q) × Store
unfolding Sample.perform built
perform_building (new_client c) s = (built c, s)
perform_building q s = Sample.perform secret q s

abbrev pub building : Services
building = record (services secret) { perform = perform_building }

abbrev pub config_of : ObsClient → ObsConfig
config_of c = if c.handle == 7 then first_config else second_config

built_from : (c : ObsConfig) (k : ObsClient) → built c ≡ ok k → config_of k ≡ c
unfolding built nat_eq
built_from c k h = elim (Bool-cases (c == first_config)) [
  | inl t ↦
      subst (λ j. config_of j ≡ c) (ok_inj client k (rw t at h)) (sym (eq-of-== c first_config t))
  | inr t ↦ elim (Bool-cases (c == second_config)) [
    | inl u ↦
        subst (λ j. config_of j ≡ c) (ok_inj second_client k (rw (t, u) at h))
          (sym (eq-of-== c second_config u))
    | inr u ↦ absurd (refused (rw (t, u) at h))
  ]
]
  where
    refused : ◌≡◌ {A = Result ObsClient} (err (service_error 400 "InvalidConfig")) (ok k) → ⊥
    refused e = cc

pub building-BuildsClients : BuildsClients building config_of
unfolding perform_building
building-BuildsClients = record { builds = λ c s k h. built_from c k h }
