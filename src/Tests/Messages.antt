-- ===== src/Tests/Messages.antt =====
-- src/utils.c and src/fs_lib.c: a message of two bytes, and the mode of a new directory.
use cs356_mini_file_system.Fs.Size.Mode.{rights, show_mode-rights}
use cs356_mini_file_system.Fs.Size.{show_mode}
use cs356_mini_file_system.Base.{[], arith, true, ◌++◌, ◌∷◌, ◌≡◌}
use cs356_mini_file_system.Utils.Socket.{delivered, get_msg, get_msg-packet, packet}

get_msg-packet_example :
    get_msg (record { inbox = packet (114 ∷ 109 ∷ []) ∷ []; outbox = [] })
    ≡ delivered (114 ∷ 109 ∷ []) [] []
get_msg-packet_example = get_msg-packet (114 ∷ 109 ∷ []) [] [] (omega arith, (omega arith, tt))

show_mode-rights_example : show_mode true 504 ≡ 100 ∷ (rights 7 ++ rights 7 ++ rights 0)
show_mode-rights_example = show_mode-rights true 504
