-- ===== src/Audio/Engine.antt =====
-- `AudioEngine` of src/audio.rs: what the user interface reads of it, and the flags that its threads
-- read. Whether the devices and threads start is an argument.
use opencord.Base.{ℕ, Bool, false, Option, none, some, ◌++◌, if◌then◌else◌}
use opencord.Text.{Text, codes}
use opencord.Model.{GroupId}

-- `input_level`, an `f32`, is the level that the callback of the microphone measured (`none`: 0.0).
pub record AudioSnapshot : Type 0 where
  pub group_id : Option GroupId
  pub muted : Bool
  pub deafened : Bool
  pub input_level : Option ℕ
  pub status : Text

-- `ActiveAudio`, without its streams and threads
pub record ActiveAudio : Type 0 where
  pub muted : Bool
  pub deafened : Bool

pub record AudioEngine : Type 0 where
  pub active : Option ActiveAudio
  pub snapshot : AudioSnapshot

abbrev pub stopped_audio : AudioSnapshot
stopped_audio = record {
  group_id = none;
  muted = false;
  deafened = false;
  input_level = none;
  status = codes "Voice disconnected";
}

-- `leave`
unfoldable pub leave : AudioEngine → AudioEngine
leave engine = record { active = none; snapshot = stopped_audio }

-- `join`, with the error of `ActiveAudio::start` if it fails.
unfoldable pub join : GroupId → Option Text → AudioEngine → AudioEngine
unfolding leave
join group_id none engine = record {
  active = some (record { muted = false; deafened = false });
  snapshot = record stopped_audio {
    group_id = some group_id;
    status = codes "Voice connected - direct encrypted mesh";
  };
}
join group_id (some error) engine = record (leave engine) {
  snapshot = record stopped_audio { status = codes "Voice unavailable: " ++ error };
}

-- `set_muted`
unfoldable pub set_muted : Bool → AudioEngine → AudioEngine
set_muted muted engine = elim engine.active [
  | none ↦ engine
  | some active ↦ record {
    active = some (record active { muted = muted });
    snapshot = record engine.snapshot {
      muted = muted;
      input_level = if muted then none else engine.snapshot.input_level;
    };
  }
]

-- `set_deafened`
unfoldable pub set_deafened : Bool → AudioEngine → AudioEngine
set_deafened deafened engine = elim engine.active [
  | none ↦ engine
  | some active ↦ record {
    active = some (record active { deafened = deafened });
    snapshot = record engine.snapshot { deafened = deafened };
  }
]
