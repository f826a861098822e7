-- ===== src/Sys/Constants.antt =====
-- crates/tx5-go-pion-sys/const.go: the types of calls, responses and events. The build copies them to Rust.
use tx.Base.{ℕ}

abbrev pub ty_err : ℕ
ty_err = 0xffff

abbrev pub ty_on_trace : ℕ
ty_on_trace = 0xfffe

abbrev pub ty_tx_5_init : ℕ
ty_tx_5_init = 0x7001

abbrev pub ty_buffer_alloc : ℕ
ty_buffer_alloc = 0x8001

abbrev pub ty_buffer_free : ℕ
ty_buffer_free = 0x8002

abbrev pub ty_buffer_access : ℕ
ty_buffer_access = 0x8003

abbrev pub ty_buffer_reserve : ℕ
ty_buffer_reserve = 0x8004

abbrev pub ty_buffer_extend : ℕ
ty_buffer_extend = 0x8005

abbrev pub ty_buffer_read : ℕ
ty_buffer_read = 0x8006

abbrev pub ty_peer_con_alloc : ℕ
ty_peer_con_alloc = 0x9001

abbrev pub ty_peer_con_free : ℕ
ty_peer_con_free = 0x9002

abbrev pub ty_peer_con_create_offer : ℕ
ty_peer_con_create_offer = 0x9003

abbrev pub ty_peer_con_create_answer : ℕ
ty_peer_con_create_answer = 0x9004

abbrev pub ty_peer_con_set_local_desc : ℕ
ty_peer_con_set_local_desc = 0x9005

abbrev pub ty_peer_con_set_rem_desc : ℕ
ty_peer_con_set_rem_desc = 0x9006

abbrev pub ty_peer_con_add_ice_candidate : ℕ
ty_peer_con_add_ice_candidate = 0x9007

abbrev pub ty_peer_con_create_data_chan : ℕ
ty_peer_con_create_data_chan = 0x9008

abbrev pub ty_peer_con_stats : ℕ
ty_peer_con_stats = 0x9009

abbrev pub ty_peer_con_on_ice_candidate : ℕ
ty_peer_con_on_ice_candidate = 0x9801

abbrev pub ty_peer_con_on_state_change : ℕ
ty_peer_con_on_state_change = 0x9802

abbrev pub ty_peer_con_on_data_channel : ℕ
ty_peer_con_on_data_channel = 0x9803

abbrev pub ty_data_chan_free : ℕ
ty_data_chan_free = 0xa002

abbrev pub ty_data_chan_ready_state : ℕ
ty_data_chan_ready_state = 0xa003

abbrev pub ty_data_chan_send : ℕ
ty_data_chan_send = 0xa004

abbrev pub ty_data_chan_label : ℕ
ty_data_chan_label = 0xa005

abbrev pub ty_data_chan_set_buffered_amount_low_threshold : ℕ
ty_data_chan_set_buffered_amount_low_threshold = 0xa006

abbrev pub ty_data_chan_buffered_amount : ℕ
ty_data_chan_buffered_amount = 0xa007

abbrev pub ty_data_chan_on_close : ℕ
ty_data_chan_on_close = 0xa801

abbrev pub ty_data_chan_on_open : ℕ
ty_data_chan_on_open = 0xa802

abbrev pub ty_data_chan_on_error : ℕ
ty_data_chan_on_error = 0xa803

abbrev pub ty_data_chan_on_message : ℕ
ty_data_chan_on_message = 0xa804

abbrev pub ty_data_chan_on_buffered_amount_low : ℕ
ty_data_chan_on_buffered_amount_low = 0xa805
