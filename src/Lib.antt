-- ===== src/Lib.antt =====
-- Verification of QtSssShttps, a server for HTTPS in C++ on the Qt framework.
--
-- The program. A connection is taken by WWWSserver, which gives it a WWWSsession. The session reads
-- a request (WWWSrequest, with its WWWheaders) and passes it on by signals to ModuleHTTPSserver,
-- which polls its handlers (MHTTPSShandlerBase and its subclasses) in turn. The handler that takes
-- the request asks the module for an answer; the module lets WWWSserver prepare a WWWSresponse,
-- which writes itself to the socket, a large one in portions on a timer. The module is configured
-- by a ModuleConf, a JSON object that is kept in a file (PersistantObject).
--
-- The files. Signals and slots are calls; an object is a record, and a method that changes it is a
-- function that returns the record it leaves.
--   Text, Hash, Json      the framework's strings, hash tables and JSON values, as far as the
--                         program calls them. Text/Laws and Text/Decimal have their laws.
--   Codec, Engine         what the program uses of the framework's Unicode tables, of `QString::arg`,
--                         and of its regular expressions, URLs and file information. This code is
--                         not in the repository: it is a parameter. `IsCodec` states the documented
--                         behaviour that theorems rely on.
--   Www/Header            WWWheader.h, WWWheader.cpp. `parse_header` is the constructor from bytes.
--   Www/Request           WWWSrequest.h, WWWSrequest.cpp. `parse_request` is the constructor.
--   Www/Response          WWWSresponse.h, WWWSresponse.cpp. `finalize` and `full_header_string` are the
--                         methods of these names; Www/Response/Sending has `start_sending`
--                         (`startSending`) and `timer_event` (`timerEvent`).
--   Www/Session           WWWSsession.h, WWWSsession.cpp: `on_ready_read` (`onReadyRead`).
--   Www/Socket            what the program sees of a `QSslSocket`.
--   Www/Server            WWWSserver.h, WWWSserver.cpp: `incoming_connection`, `on_disconnected`,
--                         `is_blocked_ip`, `is_valid_path`, `start`; Www/Server/Respond has the
--                         `respond` methods.
--   Handlers              MHTTPSShandler*.cpp: the `init` methods. Handlers/Methods is `initMethods`,
--                         Handlers/Handle the `handle` methods.
--   HttpsServer           ModuleHTTPSserver.cpp: `on_next_handler` (`onNextHandler`), `on_request`
--                         (`onRequest`) and the list of handlers (`initHandlers`,
--                         `onAppendHandler`).
--                         HttpsServer/Setup is `init`, with `initAuthentication` and
--                         `stringToHostAddress` of ModuleBase.cpp. HttpsServer/Running is
--                         `start`, `stop`, `die` and the messages, as Controller takes them.
--   Conf                  PersistantObject.cpp and ModuleConf.cpp; Conf/Settings has every getter
--                         and setter. What is read back of a file that is written is a parameter,
--                         a `Storage`: a write may fail without a sign.
--   Exchange              one exchange from the bytes to the closed connection, as the signals of
--                         WWWSsession.cpp, WWWSserver.cpp and ModuleHTTPSserver.cpp connect them.
--   Module                ModuleBase.cpp: the messages of the bus, `start`, `stop` and `die`.
--   Wss                   WSSserver.h, WSSserver.cpp and WSSsession.cpp, the web sockets.
--                         `is_barred` is `isBlockedIP`, `limit_connections` is `setMaxConnections`;
--                         Wss/Messages has `on_text_message` (`onTextMessageReceived`).
--   AppControl            ModuleAppControl.cpp, and `initSSL` of ModuleBase.cpp: `init`, `start`,
--                         `stop` and `die`. AppControl/Login has `on_got_json` and `handle_login`,
--                         AppControl/Page `on_www_request` (`onWWWSrequest`), AppControl/Bus
--                         `expose` (`exposedBusCommands`) and `executeBusCommand`.
--   Controller            AppController.cpp: `load_modules`, `init_modules`, `start_modules`,
--                         `stop_modules`, `kill_modules` and `quit`, over any modules with the
--                         methods of `ModuleClass`; Controller/Dispatch is `onBusMessage`, and
--                         Controller/Plain the modules of the base class as the controller uses
--                         them.
--   ZeroConf              ZeroConfHelpers.cpp: `new_descriptor` and `found_descriptor` are the
--                         constructors of a descriptor. ZeroConf/Announcer is ModuleZeroConfig.cpp,
--                         ZeroConf/Browser ZeroConfBrowser. ZeroConf/Signals is the signals of
--                         the other modules, as loadModules connects them with that one.
--   Application           `run` of AppController.cpp as a whole, with `writePID`.
--                         Application/Modules has the modules of all classes that
--                         `loadModules` makes; that of ModuleZeroConfig.cpp is a parameter. The
--                         signals of modules to that one are no part of these methods; they are
--                         in ZeroConf/Signals, and what is said of the run of an application is
--                         said of one without a module that announces services.
--   Settings              AppSettings.h and AppSettings.cpp: `get`, `init_settings` (`init`) and
--                         `set_setting_value` (`setValue`); Settings/Folders is `copyResources`
--                         and `setupDirs`.
--   Common, Tests         shared names and lemmas; runs of the theorems on concrete inputs.
--
-- Bounds and fuel. `ubHandlerIndex` is taken modulo 2^8, ports and the number of connections modulo
-- 2^16, the counter of sessions modulo 2^64, and the length of a file is put into a 32-bit `int`.
-- The polling runs on fuel: one round more than there are handlers is enough up to 255 handlers,
-- and none is from 256 on. The timer of a response runs on fuel: the length and two more are
-- enough. The loop that makes the name of a module unique runs on as many rounds as there are
-- modules. The copying of
-- resources runs on fuel for the depth of their directories: more than the rank of the first one is
-- enough. The bus runs on fuel for messages that are sent while others are handled: three is
-- enough for modules of the base class.
--
-- Not modelled. Debug messages, but for those of AppController about its modules, signals that only connect objects,
-- the TLS handshake and what is in a certificate; memory and deletion of objects, but for the marks
-- that a response dies, for null pointers, and for the services and browsers of the announcement;
-- WSSclient, which the program does not use, and main, nor QtZeroConf, a copy of another project; the
-- registration of the program, which nothing calls. The order of
-- the keys of a `QHash` is that of insertion, and what is sent of a file that changes meanwhile is
-- its content when it was opened.
pub mod Common
pub mod Text
pub mod Codec
pub mod Hash
pub mod Www
pub mod Json
pub mod Engine
pub mod Handlers
pub mod HttpsServer
pub mod Module
pub mod Exchange
pub mod Conf
pub mod Tests
pub mod Wss
pub mod AppControl
pub mod Controller
pub mod ZeroConf
pub mod Settings
pub mod Application
