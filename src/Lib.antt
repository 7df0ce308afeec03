-- ===== src/Lib.antt =====
-- A client library for a speech recognition server: audio goes in, requests of a text protocol go
-- out over a websocket, and responses of the same protocol come back and are parsed.
-- The paths below are from the repository's root.
--
-- The parts and the files that model them:
--   Base            helpers: lists and texts over the native numbers, Boolean tests, slices.
--   Text            std::string as a list of bytes: comparison, std::getline, std::to_string,
--                   std::stoi, std::stoul.
--   StringMap       std::map<std::string, std::string> as its entries in the order of the keys.
--   Outcome         a C++ call on an object: it returns, throws, or is undefined.
--   RingBuffer      src/ringbuffer.{h,cc}: the byte ring. `create`, `empty`, `read`, `read_all`,
--                   `write`, `get_read_avail`, `get_write_avail` are the member functions of those
--                   names; Contents is the queue of bytes that a ring stands for.
--   BufferSource    src/buffer_audio_source.cc: the audio source that an application fills and the
--                   sending thread drains, on a RingBuffer. `read`, `write`, `write_block` and
--                   `finish` are its calls.
--   TokenStream     src/aux/ws_parser.cc, class TokenStream: `get` is Get, `get_next` GetNext.
--   WsParser        src/aux/ws_parser.cc, class WsParser: `parse` is the constructor on a text,
--                   `read_lines` its loop, `stm`, `expr`, `cmd_expr`, `key_expr` the functions Stm,
--                   Expr, CmdExpr, KeyExpr, and `str` is Str.
--   AsrMessage      src/message_utils.cc, src/asr_message_{parser,request,response}.{h,cc},
--                   src/constants.h: `raw` prints a message, `consume` takes one from a text by
--                   means of WsParser.
--   RecognitionConfig  src/recognition_config.cc and its header: Builder, Getters, and Environment
--                   for getConfigFromEvironment.
--   LanguageModelList  src/language_model_list.cc: the language model and its builder.
--   RecognitionError   src/recognition_error.cc.
--   SendMessage     src/send_message.cc: the requests built from a configuration and a language
--                   model, and what a receiver reads of them.
--   RecognitionResult  src/recognition_result.cc: results, alternatives and statuses.
--   Recognizer      src/speech_recog_impl.{h,cc}: the state of the recognizer that the handlers use.
--   Handlers        src/process_msg.cc: the chain of handlers of responses. `dispatch` is the part
--                   of ASRProcessResponse::handle behind the session status.
--   ResultHandler   src/process_result.cc: the handler of results, and the results built from JSON.
--   Client          src/websocket_client.h, on_message: a payload through the chain of handlers;
--                   Segments is what a recognition in segments brings.
--   SpeechRecognizer  src/speech_recog.cc, with open and close of src/speech_recog_impl.cc and the
--                   callbacks of src/websocket_client.h: the machine of the application's calls
--                   and the connection. `step` takes an action; Inv, Calls and Reachable show its
--                   invariants, Stuck and Blocked what a failure leaves.
--   FileSource      src/file_audio_source.cc: the audio source on a file, and the sending thread on
--                   it (Sending).
--   MicSource       src/mic_audio_source.cc: the audio source on a microphone; Reading is its read.
--   Expected        include/aux/expected.h: a value or an exception in a union.
--   Exceptions      include/aux/exceptions.h.
--   ServerState     ws_mock/server.cc: what it keeps per connection, and the answers it builds.
--   Server          ws_mock/server.cc: the server that stands in for the recognition server.
--                   Packets is what it sends while audio arrives, Requests a request from the
--                   client to the server and back.
--   AudioSending    src/process_msg.cc, sendAudioMessage: the thread that sends the audio.
--   RecognizerBuilder  src/speech_recog_builder.cc: the builder of recognizers.
--
-- How the parts interact: the handlers run on a message that `consume` took from a text that
-- WsParser parsed; a response that reports success makes them send the next request, built by
-- SendMessage, until the audio of a source such as BufferSource is sent.
--
-- How the state is modelled: each class is a record, and a member function takes the object and
-- gives back the changed one. A block of memory is a list of bytes; a copy or an index outside it
-- is `none` in RingBuffer and `undefined` in WsParser. `char` is signed, as on x86. `unsigned int`
-- arithmetic wraps at 2 ^ 32 and `size_t` at 2 ^ 64, written out. read and write of BufferSource
-- hold its mutex for their whole body, so two threads are a sequence of calls. The position of
-- TokenStream in its text is the list of the bytes that are left.
--
-- Fuel: `digits_onto` in Text prints a number in decimal on fuel `suc n`, which is enough, since
-- a number has at most as many digits as its value plus one. `file_rounds` in FileSource goes
-- through as many rounds as it is told, and create-Sent says how many are enough. All other loops
-- are structural.
--
-- The machine of SpeechRecognizer: a call that blocks, in open or in waitRecognitionResult, is two
-- steps, and between any two steps the connection may open, close, fail or bring a message. A wait
-- may end at any time; if its condition does not hold then, that is its timeout. A wait that never
-- ends, as when the sending thread that it joins waits for the lock that it holds, is a step that
-- is never taken. The reset that a wait makes with that lock held is undefined in C++ and here.
--
-- Not modelled: Expected<void>, the function format, a failure of the microphone's thread, logging,
-- the files and the console of the server, and that the old connection may still bring messages
-- while it is closed. toupper in setBool, and isspace in removeExtraSpaces, which nothing calls, are
-- taken as defined on all bytes.
-- std::getenv is a parameter of RecognitionConfig.Environment, json11 is the record Json11 of
-- ResultHandler, what the source uses of websocketpp is the record Websocket of SpeechRecognizer,
-- and whether the websocket takes a text is its field, the parameter `accepts` of Handlers; `sends`
-- is the same for the server, the files are a parameter of FileSource.create, and PortAudio is the
-- record PortAudio of MicSource.
pub mod Base
pub mod RingBuffer
pub mod BufferSource
pub mod Text
pub mod StringMap
pub mod Outcome
pub mod TokenStream
pub mod WsParser
pub mod AsrMessage
pub mod RecognitionConfig
pub mod RecognitionError
pub mod LanguageModelList
pub mod SendMessage
pub mod RecognitionResult
pub mod Recognizer
pub mod Handlers
pub mod RecognizerBuilder
pub mod AudioSending
pub mod ResultHandler
pub mod Client
pub mod SpeechRecognizer
pub mod ServerState
pub mod Server
pub mod FileSource
pub mod Expected
pub mod Exceptions
pub mod MicSource
