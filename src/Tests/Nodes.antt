-- ===== src/Tests/Nodes.antt =====
-- Key files, a voice node, and two login plugins, with plain packages.
use vcs_srs_server.Utils.Keys.{encode}
use vcs_srs_server.VoiceControl.Certificates.{Rsa, load_certificate_only}
use vcs_srs_server.Srs.Auth.{PluginClient, declined_without_message}
use vcs_srs_server.Disk.{Disk, is_missing}
use vcs_srs_server.State.Settings.{
  PluginSettings, SettingsState, enable_first, find_plugin, get_all_plugin_names,
  get_plugin_address, get_plugin_configuration, is_plugin_enabled, set_plugin_enabled,
}
use vcs_srs_server.State.Settings.Plugins.{switched}
use vcs_srs_server.Utils.Keys.{
  IsPem, IsX509, Pem, PublicKey, X509, ecdsa_key, generate_key, invalid, load_key_from_file,
}
use vcs_srs_server.Utils.Keys.Files.{AreUsable, generate_key_twice}
use vcs_srs_server.VoiceControl.{
  Attempted, VoiceControlClient, connect_control_server, no_channel, opened,
}
use vcs_srs_server.VoiceControl.Laws.{accepts, connect_hides_refusal, opens}
use vcs_srs_server.Srs.Auth.Connections.{
  Reached, configure_plugin, configured, connect_client, connect_plugin, initialize_all,
  initialize_client, initialize_plugin_clients, switch_plugin,
}
use vcs_srs_server.Srs.Auth.Connections.Laws.{
  connects, found, initialize_plugin_clients_lem, is_usable,
}
use vcs_srs_server.Tests.Packages.{count_strokes, count_strokes-strokes, strokes}
use vcs_srs_server.Tests.VoiceServer.{quiet}
use vcs_srs_server.Base.{
  ℕ, ◌+◌, String, ◌≡◌, refl, ◌≢◌, ◌⊎◌, inl, true, false, not, ◌&&◌, Option, none, some, [], ◌∷◌,
  arith, eq_iff, returns, if◌then◌else◌, nat_eq, string_eq, contains, lookup, insert,
}

abbrev plain_pem : Pem
plain_pem = record { encode = λ kind bytes. bytes; decode = λ text. some text }

plain_pem-IsPem : IsPem plain_pem
plain_pem-IsPem = record { decode-encode = λ kind bytes. refl }

abbrev public_of : Option ℕ → PublicKey
public_of none = invalid
public_of (some k) = ecdsa_key k

abbrev plain_x509 : X509
plain_x509 = record {
  marshal_private = λ k. some (strokes k);
  parse_private = count_strokes;
  marshal_public = λ k. some (strokes k);
  parse_public = λ text. public_of (count_strokes text);
}

plain_x509-IsX509 : IsX509 plain_x509
plain_x509-IsX509 = record {
  parse-private = λ k bytes e. ground (arith, count_strokes-strokes k);
  parse-public = λ k bytes e. ground (arith, count_strokes-strokes k);
}

abbrev no_keys : Disk
no_keys = record { files = []; read_fails = λ f. false; write_fails = λ f. false }

abbrev key_file : String
key_file = "key.pem"

abbrev pub_file : String
pub_file = "pub.pem"

is_key_named : key_file ≢ ""
is_key_named e = absurd (ground (arith, (eq_iff key_file "").1 e))

is_pub_named : pub_file ≢ ""
is_pub_named e = absurd (ground (arith, (eq_iff pub_file "").1 e))

are_two : key_file ≢ pub_file
are_two e = absurd (ground (arith, (eq_iff key_file pub_file).1 e))

no_keys-AreUsable : AreUsable key_file pub_file no_keys
no_keys-AreUsable = record {
  differ = are_two;
  private_named = is_key_named;
  public_named = is_pub_named;
  private_read = refl;
  public_read = refl;
  private_written = refl;
  public_written = refl;
}

no_keys_load : load_key_from_file plain_pem plain_x509 key_file pub_file no_keys ≡ returns none
unfolding load_key_from_file is_missing lookup
no_keys_load = refl

encodes_three : encode plain_pem plain_x509 3 ≡ some ("|||", "|||")
unfolding encode
encodes_three = refl

abbrev unconnected : VoiceControlClient
unconnected = record {
  assigned_frequencies = [];
  stopc = no_channel;
  has_conn = false;
  conn_closed = false;
  watchers = 0;
  receivers = 0;
  reconnections = 0;
}

abbrev plain_rsa : Rsa
plain_rsa = record {
  marshal_key = strokes;
  parse_key = count_strokes;
  raw_certificate = strokes;
  parse_certificate = count_strokes;
  key_pair = λ certificate key. count_strokes key;
}

abbrev with_certificate : Disk
with_certificate = record no_keys { files = ("voicecontrol-cert.pem", "||") ∷ [] }

abbrev unanswered : Attempted
unanswered = record { registered = inl "unavailable"; streamed = opened }

abbrev forum : PluginSettings
forum = record { name = "forum"; enabled = true; address = "forum:1"; configuration = some [] }

abbrev two_plugins : SettingsState
two_plugins = record quiet {
  saved = record quiet.saved {
    security = record quiet.security {
      plugins = forum ∷ record forum { name = "wiki"; address = "" } ∷ [];
    };
  };
}

abbrev all_reached : String → Reached
all_reached name = record { dial_fails = false; configure_answer = configured }

abbrev no_login : String → PluginClient
no_login name credentials = declined_without_message

-- The plugin without an address stays enabled, and has no client.
only_forum_connects :
    (lookup "wiki" (initialize_plugin_clients all_reached no_login two_plugins).1 ≡ none)
    × (is_plugin_enabled "wiki" (initialize_plugin_clients all_reached no_login two_plugins).0
        ≡ true)
unfolding initialize_plugin_clients initialize_all initialize_client connect_client connect_plugin
    configure_plugin switch_plugin get_plugin_configuration get_plugin_address find_plugin
    get_all_plugin_names lookup insert set_plugin_enabled enable_first is_plugin_enabled
only_forum_connects = (refl, refl)

generate_key_twice_example :
    let (keys, e) = generate_key plain_pem plain_x509 (some 3) key_file pub_file no_keys in
    (keys ≡ returns (some (3, 3)))
    × (generate_key plain_pem plain_x509 (some 8) key_file pub_file e ≡ (returns (some (3, 3)), e))
generate_key_twice_example =
    generate_key_twice plain_pem plain_x509 plain_pem-IsPem plain_x509-IsX509 3 (some 8) key_file
      pub_file ("|||", "|||") no_keys no_keys-AreUsable no_keys_load encodes_three

connect_hides_refusal_example :
    let (error, w) =
      connect_control_server plain_pem plain_rsa false unanswered with_certificate unconnected in
    let is_accepted = accepts unanswered.registered && opens unanswered.streamed in
    ((error ≡ true)
      × ((load_certificate_only plain_pem plain_rsa with_certificate ≡ none) ⊎ (false ≡ true)))
    ⊎ ((error ≡ false)
        × (w.conn_closed ≡ not is_accepted)
        × (w.receivers ≡ unconnected.receivers + (if is_accepted then 1 else 0)))
connect_hides_refusal_example =
    connect_hides_refusal plain_pem plain_rsa false unanswered with_certificate unconnected

initialize_plugin_clients_lem_example :
    let after = initialize_plugin_clients all_reached no_login two_plugins in
    let is_tried =
      contains (get_all_plugin_names two_plugins) "wiki" && is_usable (found "wiki" two_plugins) in
    (found "wiki" after.0 ≡ (
      if is_tried
      then switched (connects (all_reached "wiki")) (found "wiki" two_plugins)
      else found "wiki" two_plugins))
    × (lookup "wiki" after.1
        ≡ (if is_tried && connects (all_reached "wiki") then some (no_login "wiki") else none))
initialize_plugin_clients_lem_example =
    initialize_plugin_clients_lem all_reached no_login "wiki" two_plugins
