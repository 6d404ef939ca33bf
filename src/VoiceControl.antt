-- ===== src/VoiceControl.antt =====
-- voiceontrol/client.go and voiceontrol/service.go: how a voice node connects to its control node. What
-- gRPC answers is a parameter. An error is given by its text, nil by `none`.
pub mod Certificates
pub mod Laws
use Prim.Native.String.{◌++◌ as str_append}
use vcs_srs_server.Utils.Keys.{Pem}
use vcs_srs_server.Disk.{Disk}
use vcs_srs_server.Srs.Auth.{Attempt, done, panicked, blocked}
use vcs_srs_server.VoiceControl.Certificates.{Rsa, load_certificate_only}
use vcs_srs_server.Base.{
  ℕ, zero, suc, ◌-◌, String, ◌⊎◌, inl, inr, Bool, true, false, ◌||◌, Option, none, some, List, [],
  if◌then◌else◌,
}

-- A range of frequencies, from and to.
abbrev pub FrequencyRange : Type 0
FrequencyRange = ℕ × ℕ

pub record RegisterResponse : Type 0 where
  pub success : Bool
  pub message : String
  pub assigned_frequencies : List FrequencyRange

-- RegisterVoiceServer of the service accepts every voice server and assigns no frequency.
unfoldable pub register_voice_server : RegisterResponse
register_voice_server = record {
  success = true;
  message = "Voice server registered successfully";
  assigned_frequencies = [];
}

-- What EstablishStream answers: a stream, an error of the codes Unavailable or DeadlineExceeded, or
-- another error.
pub data StreamAnswer : Type 0 where
  opened : StreamAnswer
  temporary other_error : String → StreamAnswer

-- The goroutines that the client has started are counted: `watchers` of the state of the connection,
-- `receivers` on the stream, `reconnections`. A channel stopc may be missing, open or closed.
pub data StopChannel : Type 0 where
  no_channel open_channel closed_channel : StopChannel

pub record VoiceControlClient : Type 0 where
  pub assigned_frequencies : List FrequencyRange
  pub stopc : StopChannel
  pub has_conn : Bool
  pub conn_closed : Bool
  pub watchers : ℕ
  pub receivers : ℕ
  pub reconnections : ℕ

unfoldable pub new_voice_control_client : VoiceControlClient
new_voice_control_client = record {
  assigned_frequencies = [];
  stopc = no_channel;
  has_conn = false;
  conn_closed = false;
  watchers = 0;
  receivers = 0;
  reconnections = 0;
}

-- An error of the call, or its response.
abbrev pub Answer : Type 0
Answer = String ⊎ RegisterResponse

unfoldable pub register_self : Answer → VoiceControlClient → Option String × VoiceControlClient
register_self (inl e) v = (some e, v)
register_self (inr resp) v =
    if resp.success
    then (none, record v { assigned_frequencies = resp.assigned_frequencies })
    else (some (str_append "failed to register voice server: " resp.message), v)

abbrev pub made : StopChannel → StopChannel
made no_channel = open_channel
made open_channel = open_channel
made closed_channel = closed_channel

unfoldable pub establish_stream :
    StreamAnswer → VoiceControlClient → Option String × VoiceControlClient
establish_stream opened v = (none, record v { stopc = made v.stopc; receivers = suc v.receivers })
establish_stream (temporary e) v = (
  some (str_append "temporary connection issue: " e),
  record v { reconnections = suc v.reconnections },
)
establish_stream (other_error e) v = (some (str_append "failed to establish stream: " e), v)

-- What the two calls of one attempt answer.
pub record Attempted : Type 0 where
  pub registered : Answer
  pub streamed : StreamAnswer

unfoldable pub establish_connection :
    Attempted → VoiceControlClient → Option String × VoiceControlClient
establish_connection a v =
    let (error, w) = register_self a.registered (record v { watchers = suc v.watchers }) in
    elim error [ some e ↦ (some e, w) | none ↦ establish_stream a.streamed w ]

-- A watcher sees the connection become idle.
unfoldable pub became_idle : VoiceControlClient → VoiceControlClient
became_idle v = record v { reconnections = suc v.reconnections }

-- A round of a receiver: it ends at the end of the stream, and where stopc is closed; on another error
-- it starts a reconnection, and goes on, since the break leaves only the select.
pub data Received : Type 0 where
  message end_of_stream receive_error : Received

unfoldable pub receiver_round : Received → VoiceControlClient → VoiceControlClient
receiver_round r v =
    let ended : VoiceControlClient = record v { receivers = v.receivers - 1 } in
    elim v.stopc [
      | closed_channel ↦ ended
      | _ ↦ elim r [
        | message ↦ v
        | end_of_stream ↦ ended
        | receive_error ↦ record v { reconnections = suc v.reconnections }
      ]
    ]

-- A receiver whose stream fails in so many rounds.
unfoldable pub rounds_of_errors : ℕ → VoiceControlClient → VoiceControlClient
rounds_of_errors zero v = v
rounds_of_errors (suc n) v = rounds_of_errors n (receiver_round receive_error v)

abbrev closed_conn : VoiceControlClient → VoiceControlClient
closed_conn v = record v { conn_closed = v.conn_closed || v.has_conn }

-- Close, save for the error of the connection. To close stopc again is a panic.
unfoldable pub close : VoiceControlClient → Attempt VoiceControlClient
close v = elim v.stopc [
  | no_channel ↦ done (closed_conn v)
  | open_channel ↦ done (closed_conn (record v { stopc = closed_channel }))
  | closed_channel ↦ panicked
]

module _ (p : Pem) (r : Rsa) where
  -- ConnectControlServer: whether there is an error, and the client. `dial_fails` is the answer of
  -- grpc.NewClient. An error of the first attempt is only logged, and its connection closed.
  unfoldable pub connect_control_server :
      Bool → Attempted → Disk → VoiceControlClient → Bool × VoiceControlClient
  connect_control_server dial_fails a d v = elim (load_certificate_only p r d) [
    | none ↦ (true, v)
    | some _ ↦
        if dial_fails
        then (true, v)
        else let (error, w) =
            establish_connection a (record v { has_conn = true; conn_closed = false }) in
          (false, elim error [ none ↦ w | some _ ↦ record w { conn_closed = true } ])
  ]
