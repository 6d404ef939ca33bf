-- ===== src/Tests/Yaml.antt =====
-- A concrete package yaml: it writes the settings that differ from the defaults in the number of
-- radios only, as that number in strokes, and fails on others.
use vcs_srs_server.State.Settings.{
  FrequencySettings, IsYaml, Saved, SecuritySettings, ServerSetting, ServerSettings, TokenSettings,
  VoiceControlSettings, Yaml, default_settings,
}
use vcs_srs_server.Tests.Packages.{count_strokes, count_strokes-strokes, strokes}
use vcs_srs_server.Base.{
  ℕ, String, ◌≡◌, refl, sym, ap, ◌∙◌, inl, inr, Bool, true, false, not, ◌&&◌, Option, none, some,
  List, [], ◌∷◌, arith, eq_iff, if◌then◌else◌, ◌==◌, nat_eq, string_eq, Bool-cases,
}

abbrev both_empty : {A : Type 0} → List A → List A → Bool
both_empty [] [] = true
both_empty _ _ = false

both_empty-eq : {A : Type 0} (xs ys : List A) → both_empty xs ys ≡ true → xs ≡ ys
both_empty-eq [] [] h = refl
both_empty-eq [] (y ∷ ys) h = absurd (ground arith)
both_empty-eq (x ∷ xs) ys h = absurd (ground arith)

abbrev same_server : ServerSetting → ServerSetting → Bool
same_server a b = a.host == b.host && a.port == b.port

same_server-eq : (a b : ServerSetting) → same_server a b ≡ true → a ≡ b
same_server-eq a b h = ground (arith, eq_iff a.host b.host)

abbrev same_token : TokenSettings → TokenSettings → Bool
same_token a b =
    a.expiration == b.expiration
    && a.private_key_file == b.private_key_file
    && a.public_key_file == b.public_key_file
    && a.issuer == b.issuer
    && a.subject == b.subject

same_token-eq : (a b : TokenSettings) → same_token a b ≡ true → a ≡ b
same_token-eq a b h = ground (
  arith,
  eq_iff a.private_key_file b.private_key_file,
  eq_iff a.public_key_file b.public_key_file,
  eq_iff a.issuer b.issuer,
  eq_iff a.subject b.subject,
)

abbrev same_bool : Bool → Bool → Bool
same_bool true b = b
same_bool false b = not b

abbrev same_security : SecuritySettings → SecuritySettings → Bool
same_security a b =
    both_empty a.plugins b.plugins
    && same_bool a.enable_plugin_auth b.enable_plugin_auth
    && same_bool a.enable_guest_auth b.enable_guest_auth
    && same_token a.token b.token

same_security-eq : (a b : SecuritySettings) → same_security a b ≡ true → a ≡ b
same_security-eq a b h =
    ground (arith, both_empty-eq a.plugins b.plugins, same_token-eq a.token b.token)

abbrev same_voice_control : VoiceControlSettings → VoiceControlSettings → Bool
same_voice_control a b =
    a.port == b.port
    && a.remote_host == b.remote_host
    && a.listen_host == b.listen_host
    && a.certificate_file == b.certificate_file
    && a.private_key_file == b.private_key_file

same_voice_control-eq : (a b : VoiceControlSettings) → same_voice_control a b ≡ true → a ≡ b
same_voice_control-eq a b h = ground (
  arith,
  eq_iff a.remote_host b.remote_host,
  eq_iff a.listen_host b.listen_host,
  eq_iff a.certificate_file b.certificate_file,
  eq_iff a.private_key_file b.private_key_file,
)

and-both : (a b : Bool) → (a && b) ≡ true → (a ≡ true) × (b ≡ true)
and-both true b h = (refl, h)
and-both false b h = absurd (ground arith)

abbrev same_servers : ServerSettings → ServerSettings → Bool
same_servers a b =
    same_server a.http b.http && (same_server a.voice b.voice && same_server a.control b.control)

same_servers-eq : (a b : ServerSettings) → same_servers a b ≡ true → a ≡ b
same_servers-eq a b h =
    let (p, h') =
      and-both (same_server a.http b.http)
        (same_server a.voice b.voice && same_server a.control b.control) h in
    let (q, r) = and-both (same_server a.voice b.voice) (same_server a.control b.control) h' in
    let http = same_server-eq a.http b.http p in
    let voice = same_server-eq a.voice b.voice q in
    let control = same_server-eq a.control b.control r in
    λ i. record { http = http i; voice = voice i; control = control i }

abbrev same_frequencies : FrequencySettings → FrequencySettings → Bool
same_frequencies a b =
    both_empty a.test_frequencies b.test_frequencies
    && both_empty a.global_frequencies b.global_frequencies

same_frequencies-eq : (a b : FrequencySettings) → same_frequencies a b ≡ true → a ≡ b
same_frequencies-eq a b h =
    let (p, q) =
      and-both (both_empty a.test_frequencies b.test_frequencies)
        (both_empty a.global_frequencies b.global_frequencies) h in
    let test = both_empty-eq a.test_frequencies b.test_frequencies p in
    let global = both_empty-eq a.global_frequencies b.global_frequencies q in
    λ i. record { test_frequencies = test i; global_frequencies = global i }

abbrev same_rest : Saved → Saved → Bool
same_rest a b =
    same_security a.security b.security && same_voice_control a.voice_control b.voice_control

abbrev same_lists : Saved → Saved → Bool
same_lists a b =
    both_empty a.coalitions b.coalitions && same_frequencies a.frequencies b.frequencies

-- All but the number of radios is the same.
abbrev same_saved : Saved → Saved → Bool
same_saved a b = same_servers a.servers b.servers && (same_lists a b && same_rest a b)

abbrev pub plain_saved : ℕ → Saved
plain_saved n = record (default_settings "").saved { general = record { max_radios_per_user = n } }

same_saved-eq : (s t : Saved) → same_saved s t ≡ true → s ≡ record t { general = s.general }
same_saved-eq s t h =
    let (p, h') = and-both (same_servers s.servers t.servers) (same_lists s t && same_rest s t) h in
    let (l, r) = and-both (same_lists s t) (same_rest s t) h' in
    let (c, f) =
      and-both (both_empty s.coalitions t.coalitions) (same_frequencies s.frequencies t.frequencies)
        l in
    let (e, v) =
      and-both (same_security s.security t.security)
        (same_voice_control s.voice_control t.voice_control) r in
    let servers = same_servers-eq s.servers t.servers p in
    let coalitions = both_empty-eq s.coalitions t.coalitions c in
    let frequencies = same_frequencies-eq s.frequencies t.frequencies f in
    let security = same_security-eq s.security t.security e in
    let voice_control = same_voice_control-eq s.voice_control t.voice_control v in
    λ i. record {
      servers = servers i;
      coalitions = coalitions i;
      frequencies = frequencies i;
      general = s.general;
      security = security i;
      voice_control = voice_control i;
    }

unfoldable pub marshal : Saved → Option String
marshal s =
    if same_saved s (plain_saved 0) then some (strokes s.general.max_radios_per_user) else none

unfoldable pub unmarshal : String → Option Saved
unmarshal t = elim (count_strokes t) [ none ↦ none | some n ↦ some (plain_saved n) ]

abbrev pub plain_yaml : Yaml
plain_yaml = record { marshal = marshal; unmarshal = unmarshal }

pub plain_yaml-IsYaml : IsYaml plain_yaml
unfolding marshal unmarshal
plain_yaml-IsYaml = record {
  read_back = λ s t h. elim (Bool-cases (same_saved s (plain_saved 0))) [
    | inl e ↦
        let read : unmarshal t ≡ some (plain_saved s.general.max_radios_per_user) =
          ground (arith, e, count_strokes-strokes s.general.max_radios_per_user) in
        read ∙ ap some (sym (same_saved-eq s (plain_saved 0) e))
    | inr e ↦ absurd (ground (arith, e))
  ];
}

test_yaml : unmarshal "|||" ≡ some (plain_saved 3)
unfolding unmarshal
test_yaml = refl
