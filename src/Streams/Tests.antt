-- ===== src/Streams/Tests.antt =====
-- Frames of two streams, one after the other.
use adaptivemsg_go.Bytes.{Bytes}
use adaptivemsg_go.Frame.{Frame}
use adaptivemsg_go.Prelude.{List, [], none, refl, some, ℕ, ◌∷◌, ◌≡◌}
use adaptivemsg_go.Streams.{
  StreamTable, get_stream_ctx, new_stream, new_stream_table, remove_stream,
}
use adaptivemsg_go.Streams.Closed.{IsGone, Refuses, accept_frames-Refuses}
use adaptivemsg_go.Streams.Demultiplex.{accept_frames, accept_frames-Serves, all_items}
use adaptivemsg_go.Streams.Queueing.{IsServed, Serves, queue_of}

abbrev data_frame : ℕ → ℕ → Bytes → Frame
data_frame id flags payload = record { stream_id = id; seq = 0; flags = flags; payload = payload }

abbrev mixed_frames : List Frame
mixed_frames =
    data_frame 1 0 (10 ∷ [])
    ∷ data_frame 2 0 (20 ∷ [])
    ∷ data_frame 1 1 (11 ∷ [])
    ∷ data_frame 2 1 []
    ∷ []

new_stream_table-IsServed : IsServed 1 new_stream_table
new_stream_table-IsServed = record {
  is_open = unfold new_stream_table in refl;
  all_open = unfold new_stream_table in tt;
  not_reserved = unfold new_stream_table in refl;
  not_opened = unfold new_stream_table in refl;
}

accept_frames-Serves_example :
    Serves 1
      (all_items 1 mixed_frames (queue_of 1 new_stream_table))
      (accept_frames new_stream_table mixed_frames)
accept_frames-Serves_example =
    accept_frames-Serves 1 mixed_frames new_stream_table new_stream_table-IsServed

-- The items of stream 1 are its two payloads, and FIN.
items_of_one : all_items 1 mixed_frames none ≡ some (some (10 ∷ []) ∷ some (11 ∷ []) ∷ none ∷ [])
items_of_one = refl

-- This side opened stream 1 and closed it.
abbrev after_close : StreamTable
after_close = remove_stream (new_stream new_stream_table).1 1

after_close-IsGone : IsGone 1 after_close
unfolding new_stream new_stream_table get_stream_ctx remove_stream
after_close-IsGone = record { is_open = refl; opened_here = refl; absent = refl }

accept_frames-Refuses_example : Refuses 1 (accept_frames after_close mixed_frames)
accept_frames-Refuses_example = accept_frames-Refuses 1 mixed_frames after_close after_close-IsGone
