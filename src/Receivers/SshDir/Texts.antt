-- ===== src/Receivers/SshDir/Texts.antt =====
-- The texts of the commands in pkg/receive/receivers/sshdir/sshdir.go.
use btrsync.Common.{[], ◌∷◌}
use btrsync.Common.Bytes.{Bytes}

abbrev pub text_cat : Bytes
text_cat = 99 ∷ 97 ∷ 116 ∷ 32 ∷ []

abbrev pub text_echo : Bytes
text_echo = 101 ∷ 99 ∷ 104 ∷ 111 ∷ 32 ∷ []

abbrev pub text_to_file : Bytes
text_to_file = 32 ∷ 62 ∷ 32 ∷ []

abbrev pub text_mkdir_p : Bytes
text_mkdir_p = 109 ∷ 107 ∷ 100 ∷ 105 ∷ 114 ∷ 32 ∷ 45 ∷ 112 ∷ 32 ∷ []

abbrev pub text_touch : Bytes
text_touch = 116 ∷ 111 ∷ 117 ∷ 99 ∷ 104 ∷ 32 ∷ []

abbrev pub text_mkdir : Bytes
text_mkdir = 109 ∷ 107 ∷ 100 ∷ 105 ∷ 114 ∷ 32 ∷ []

abbrev pub text_mknod : Bytes
text_mknod = 109 ∷ 107 ∷ 110 ∷ 111 ∷ 100 ∷ 32 ∷ []

abbrev pub text_space : Bytes
text_space = 32 ∷ []

abbrev pub text_mkfifo : Bytes
text_mkfifo = 109 ∷ 107 ∷ 102 ∷ 105 ∷ 102 ∷ 111 ∷ 32 ∷ []

abbrev pub text_python : Bytes
text_python =
    112 ∷ 121 ∷ 116 ∷ 104 ∷ 111 ∷ 110 ∷ 32 ∷ 45 ∷ 99 ∷ 32 ∷ 34 ∷ 105 ∷ 109 ∷ 112 ∷ 111 ∷ 114 ∷ 116
    ∷ 32 ∷ 115 ∷ 111 ∷ 99 ∷ 107 ∷ 101 ∷ 116 ∷ 59 ∷ 32 ∷ 115 ∷ 111 ∷ 99 ∷ 107 ∷ 101 ∷ 116 ∷ 46 ∷ 115
    ∷ 111 ∷ 99 ∷ 107 ∷ 101 ∷ 116 ∷ 40 ∷ 115 ∷ 111 ∷ 99 ∷ 107 ∷ 101 ∷ 116 ∷ 46 ∷ 65 ∷ 70 ∷ 95 ∷ 85
    ∷ 78 ∷ 73 ∷ 88 ∷ 44 ∷ 32 ∷ 115 ∷ 111 ∷ 99 ∷ 107 ∷ 101 ∷ 116 ∷ 46 ∷ 83 ∷ 79 ∷ 67 ∷ 75 ∷ 95 ∷ 83
    ∷ 84 ∷ 82 ∷ 69 ∷ 65 ∷ 77 ∷ 41 ∷ 46 ∷ 98 ∷ 105 ∷ 110 ∷ 100 ∷ 40 ∷ 39 ∷ []

abbrev pub text_python_end : Bytes
text_python_end = 39 ∷ 41 ∷ 34 ∷ []

abbrev pub text_ln_s : Bytes
text_ln_s = 108 ∷ 110 ∷ 32 ∷ 45 ∷ 115 ∷ 32 ∷ []

abbrev pub text_mv : Bytes
text_mv = 109 ∷ 118 ∷ 32 ∷ []

abbrev pub text_ln : Bytes
text_ln = 108 ∷ 110 ∷ 32 ∷ []

abbrev pub text_rm_rf : Bytes
text_rm_rf = 114 ∷ 109 ∷ 32 ∷ 45 ∷ 114 ∷ 102 ∷ 32 ∷ []

abbrev pub text_dd : Bytes
text_dd = 100 ∷ 100 ∷ 32 ∷ 111 ∷ 102 ∷ 61 ∷ []

abbrev pub text_dd_seek : Bytes
text_dd_seek = 32 ∷ 98 ∷ 115 ∷ 61 ∷ 49 ∷ 32 ∷ 115 ∷ 101 ∷ 101 ∷ 107 ∷ 61 ∷ []

abbrev pub text_dd_count : Bytes
text_dd_count = 32 ∷ 99 ∷ 111 ∷ 117 ∷ 110 ∷ 116 ∷ 61 ∷ []

abbrev pub text_dd_end : Bytes
text_dd_end = 32 ∷ 99 ∷ 111 ∷ 110 ∷ 118 ∷ 61 ∷ 110 ∷ 111 ∷ 116 ∷ 114 ∷ 117 ∷ 110 ∷ 99 ∷ []

abbrev pub text_setfattr_n : Bytes
text_setfattr_n = 115 ∷ 101 ∷ 116 ∷ 102 ∷ 97 ∷ 116 ∷ 116 ∷ 114 ∷ 32 ∷ 45 ∷ 110 ∷ 32 ∷ []

abbrev pub text_setfattr_v : Bytes
text_setfattr_v = 32 ∷ 45 ∷ 118 ∷ 32 ∷ 48 ∷ 83 ∷ []

abbrev pub text_setfattr_x : Bytes
text_setfattr_x = 115 ∷ 101 ∷ 116 ∷ 102 ∷ 97 ∷ 116 ∷ 116 ∷ 114 ∷ 32 ∷ 45 ∷ 120 ∷ 32 ∷ []

abbrev pub text_truncate_s : Bytes
text_truncate_s = 116 ∷ 114 ∷ 117 ∷ 110 ∷ 99 ∷ 97 ∷ 116 ∷ 101 ∷ 32 ∷ 45 ∷ 115 ∷ 32 ∷ []

abbrev pub text_chmod : Bytes
text_chmod = 99 ∷ 104 ∷ 109 ∷ 111 ∷ 100 ∷ 32 ∷ []

abbrev pub text_chown : Bytes
text_chown = 99 ∷ 104 ∷ 111 ∷ 119 ∷ 110 ∷ 32 ∷ []

abbrev pub text_colon : Bytes
text_colon = 58 ∷ []

abbrev pub text_touch_t : Bytes
text_touch_t = 116 ∷ 111 ∷ 117 ∷ 99 ∷ 104 ∷ 32 ∷ 45 ∷ 97 ∷ 32 ∷ 45 ∷ 109 ∷ 32 ∷ 45 ∷ 116 ∷ 32 ∷ []

abbrev pub text_fallocate_l : Bytes
text_fallocate_l = 102 ∷ 97 ∷ 108 ∷ 108 ∷ 111 ∷ 99 ∷ 97 ∷ 116 ∷ 101 ∷ 32 ∷ 45 ∷ 108 ∷ 32 ∷ []

abbrev pub text_fallocate_o : Bytes
text_fallocate_o = 32 ∷ 45 ∷ 111 ∷ 32 ∷ []
