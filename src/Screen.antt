-- ===== src/Screen.antt =====
-- `ScreenShare` of src/screen.rs. The capture, the scaling and the JPEG coder are third-party: what
-- they return is an argument. The worker runs between `start` and `stop`, which joins it.
use opencord.Base.{
  ℕ, ◌+◌, ◌*◌, Bool, true, false, List, [], ◌∷◌, ◌++◌, Option, none, some, if◌then◌else◌, leb,
  length,
}
use opencord.Text.{Text, codes}
use opencord.Model.{Bytes, GroupId}
use opencord.Network.Wire.{ScreenPacket}

pub record ScreenShareSnapshot : Type 0 where
  pub group_id : Option GroupId
  pub frames_sent : ℕ
  pub status : Text

pub record ScreenShare : Type 0 where
  pub running : Bool
  pub snapshot : ScreenShareSnapshot
  -- what was sent to the sessions
  pub sent : List ScreenPacket

-- `stop`
unfoldable pub stop : ScreenShare → ScreenShare
stop share = record share {
  running = false;
  snapshot = record { group_id = none; frames_sent = 0; status = codes "Screen share stopped" };
}

-- `start`
unfoldable pub start : GroupId → ScreenShare → ScreenShare
unfolding stop
start group_id share = record (stop share) {
  running = true;
  snapshot = record {
    group_id = some group_id;
    frames_sent = 0;
    status = codes "Starting screen capture…";
  };
}

-- The primary display was found.
unfoldable pub found_display : ScreenShare → ScreenShare
found_display share = record share {
  snapshot = record share.snapshot { status = codes "Sharing primary display at 2 FPS" };
}

-- A round of the capture loop, with the encoded picture; one that is too long is not sent.
unfoldable pub share_frame : GroupId → Bytes → ScreenShare → ScreenShare
share_frame group_id jpeg share =
    if leb (length jpeg) (4 * 1024 * 1024)
    then record share {
      sent = share.sent ++ record { group_id = group_id; jpeg = jpeg } ∷ [];
      snapshot = record share.snapshot { frames_sent = share.snapshot.frames_sent + 1 };
    }
    else share

-- The capture ended with an error.
unfoldable pub fail_capture : Text → ScreenShare → ScreenShare
fail_capture error share = record share {
  snapshot = record share.snapshot { status = codes "Screen share stopped: " ++ error };
}
