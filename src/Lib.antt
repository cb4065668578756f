-- ===== src/Lib.antt =====
-- The Matter to LwM2M bridge: an ESP32 program that shows LwM2M devices to a Matter network and bound
-- Matter devices to LwM2M clients. A Matter controller that reads or writes an attribute of a bridged
-- endpoint, or invokes a command, reaches the callbacks of main/main.cpp, which translate the ids and
-- send a CoAP request with the client of main/CoapClient.cpp. A CoAP request reaches the handlers of
-- main/CoapServer.cpp, which translate back and schedule data for the binding handler of
-- main/BindingHandler.cpp. The id maps of main/include/BridgeUtils.h serve both ways; they are filled
-- from SDF mapping files.
--
--   Text, Text/Defs          SplitString of main/CoapServer.cpp, with the operations of std::string,
--                            std::to_string and std::stoi that the program uses, on lists of codes
--   Slashes                  ExtractBetweenSlashes of main/include/BridgeUtils.h, in 32 bits of size_t
--   Hex                      decToHexa and Ip6ToStr of main/BridgeUtils.cpp
--   BiMap                    class BiMap of main/include/BridgeUtils.h; its two maps are association
--                            lists
--   BiMap/Pairs              the list of pairs that a BiMap stands for
--   Json                     values of nlohmann::json and of pugixml as the parsers hand them over
--   Mapping                  MatterIpsoMapping, and GenerateMatterIpsoMapping of main/main.cpp
--   Client/Library           what is used of libcoap: each call is answered by a function of all calls
--                            before it, and recorded
--   Client/State             the globals of the client, and steps that can jump to the label finish
--   Client/Exchange          the body that the nine functions of main/CoapClient.cpp share
--   Client/Answer            the writes into the buffer of the caller
--   Client/Requests          the nine functions, LoadClusterXmlFile to CoapClientPut
--   Binding                  BindingCommandData and the handlers of main/BindingHandler.cpp
--   Server/Forward           ForwardAttributeWriteMessage, ForwardCommandMessage and the PUT handlers
--   Server/Read              ForwardAttributeReadMessage, hnd_attribute_get and the global result_ptr
--   Server/Register          the Register functions and GenerateCoapResource; the resources of libcoap
--                            are an interface of operations and laws
--   Server/Startup           init_server, start_server and cleanup_server
--   Server/Definition        ParseObjectDefinition of main/include/LwM2MObject.hpp; the accessors of pugixml
--                            are an interface
--   Server/Bringup           InitCoapServer of main/main.cpp, from the wait for addresses to start_server
--   Bridge                   the external attribute callbacks and the instant action callback
--   Bridge/Endpoints         AddDeviceEndpoint and RemoveDeviceEndpoint
--   Devices                  class Device, and HandleDeviceStatusChanged of main/main.cpp
--   Task, Task/Queues        main/AppTask.cpp, main/Button.cpp and main/include/AppEvent.h; the queues of
--                            FreeRTOS are an interface
--   Task/Counter             the bounded counter that the task promises
--   Binding/Setup            the set-up of the binding manager, the worker of binding entries, and the
--                            works that are given to ScheduleWork
--   Program/Flow             how a part of the start ends: done, endless, or by an exception
--   Program/Converter        ConvertSdfToMatter and ConvertMatterToSdf of main/include/BridgeUtils.h
--   Program/Declarations     the endpoints that main/main.cpp declares
--   Program/Custom           LoadClusterDefinition and CreateCustomDevice
--   Program/Deploy           ConvertAndDeployMatter and InitServer
--   Program/Works            the queue of works of the Matter thread, and the reporting callbacks
--   Program/Boot             app_main
--   Actions                  ActionsAttrAccess of main/DeviceCallbacks.cpp
--   Examples                 runs on small inputs
--
-- The other modules hold proofs, and Base what all share: numbers are native, an int is the type ℤ of
-- Base/Int, a result of code that can throw is the Result of Base/Faults, where undefined behaviour is
-- a fault of its own.
--
-- Fuel. The waiting loop of the client takes fuel: its time to wait is at most 65536000 ms, as the
-- leisure time of a session has 16 bits, and each round takes time off, so one round more is enough.
-- The search for an endpoint id takes fuel: there are 2 ^ 16 ids. SplitString makes at most one round
-- for each character and one more; decToHexa makes no more rounds than its number says.
--
-- The inner loop of the task takes fuel for the ten events of its queue; its outer loop is endless, so
-- its turns are counted. The loop of InitCoapServer takes fuel for its rounds: it waits as long as the
-- network has no third address, and one round more than it waits is enough. CreateCustomDevice and
-- InitServer hand the fuel of the client and of the search for an endpoint id on.
--
-- How the parts run together: app_main schedules InitServer for the Matter thread and starts the task
-- of the button. The Matter thread does its works one by one, in the order in which they were
-- scheduled, which is what the SDK documents. InitServer schedules the set-up of the binding handler,
-- deploys the endpoints, loads the two mappings, and creates the task of the server last. Other tasks
-- schedule works at any time, and presses of the button interrupt the task at any time; both are steps
-- of a relation on states.
--
-- Not modelled: messages that are only logged and the delays of the loaders; libcoap, the Matter SDK,
-- FreeRTOS, nlohmann::json, pugixml and the converter, which are parameters where the code relies on
-- them; the lifetime of the local arrays that CreateCustomDevice hands to the SDK, which the model
-- keeps as values; the globals of the client when the task of the server and the Matter thread use it
-- at the same time.
pub mod Actions
pub mod Base
pub mod BiMap
pub mod Binding
pub mod Bridge
pub mod Client
pub mod Devices
pub mod Examples
pub mod Hex
pub mod Json
pub mod Mapping
pub mod Program
pub mod Server
pub mod Slashes
pub mod Task
pub mod Text
