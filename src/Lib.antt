-- ===== src/Lib.antt =====
-- RunAll_Resource: the service that keeps the instances of users, runs them on Kubernetes, exposes their
-- ports and follows the events of a RabbitMQ queue.
--
-- A request or an event enters at the service layer (internal/service/resource.go), which checks it and
-- calls the use case (internal/biz/resource.go). The use case knows the database and the cluster only as
-- repository interfaces, which internal/data fills. The consumer of the queue (internal/server/mq.go)
-- hands each delivery to the service layer and settles it by the error that comes back.
--
-- Every operation is a function from a state of the world to a result and a new state, also where it
-- fails (Go/Effects): what was done before an error stays done. The five interfaces are records of such
-- functions (Biz/Repos), and the use case is a function of them.
--
--   Go               errors, texts, decimals, channels, and functions with effects
--   Biz/Types, Repos the structs and the interfaces of internal/biz/resource.go
--   Biz/Instance     CreateInstance, ListResources, GetResource, DeleteInstance, StopInstance,
--                    StartInstance, UpdateInstance of internal/biz/resource.go
--   Biz/Ports        SetInstancePort, openPort, closePort; Biz/Ports/Ledger wraps the repositories and
--                    records what the code created and asked to delete
--   Biz/Exec         the checks and defaults of StreamExec
--   Service          the handlers of internal/service/resource.go: ConsumeMqMessage (Consume),
--                    applyResourceFieldMask (FieldMask), SetInstancePort (PortConfigs),
--                    ListResources (Listing), the handlers to delete, stop, start and update
--                    (Lifecycle), and the messages and checks of ExecContainer (Exec)
--   Mq               internal/server/mq.go: getRetryCount and isRetryableError (Retry), processMessage
--                    (Delivery), NewMQServer (Config), Start and Stop (Consumer) over the calls
--                    of the broker (Broker)
--   Data             internal/data. Of k8sInstance.go the names (Names), the settings and the pool of
--                    external ports (PortPool), the quantities (Quota), and the operations of k8sRepo
--                    over the calls of client-go (Kube): Kube/Deployments, Kube/Services for services and
--                    ingresses, Kube/Nginx for the TCP and UDP ports of ingress-nginx. networkRepo of
--                    network.go (Network), resourceRepo of resource.go and auditRepo of audit.go
--                    (Instances) over the calls of gorm, maskPassword of rabbitmq.go (MaskPassword), the
--                    choice of the pod of exec.go (Exec), and the connections of data.go and
--                    rabbitmq.go (Clients)
--   Exec             a session of ExecContainer. The goroutines of internal/service/resource.go and
--                    internal/data/exec.go are moves of a shared state: Exec/Inbound has the way of a
--                    request to the command, Exec/Outbound the way of its output to the client,
--                    Exec/Session both, with the sequences of moves that are possible (Reach). A move
--                    goes on, waits, or panics, as the channels say (Go/Channel)
--   Startup          main and detectConfigPath of cmd/resource/main.go, wireApp of
--                    cmd/resource/wire_gen.go
--   Tests            a use case over lists in memory, and the properties at concrete inputs
--
-- Numbers: the uint32 counter of the port pool wraps at 2^32, the products of quantities are taken in
-- int64. Identifiers are int64, which the code only compares and prints. A decimal is printed by recursion
-- on the well-founded order of the numbers, so no fuel is needed; the loops are recursions on lists. The
-- deliveries of a message that comes back again and again are counted (Mq/Delivery/Redelivery), since the
-- code sets no bound. The channels of a session hold ten items, its pipes none, and a read takes 8192 bytes
-- at most, as in the code; the end of a session is a recursion on a weight that each move makes smaller.
--
-- Parameters, being code of libraries: proto.Unmarshal and protojson.Unmarshal, the texts of Kratos, gorm
-- and amqp errors, the broker's answers and how it changes a message that comes back, and the calls of
-- client-go, gorm, amqp and Kratos. What the client of a session sends and takes, and what the command
-- reads and writes and how it ends, are choices in the sequence of moves. What a statement relies on of a
-- cluster or a database that keeps what is written to it is a record of laws (KeepsNginx, KeepsScales,
-- KeepsTable, KeepsTables, and KeepsTopology for the broker), with an instance in Tests.
-- KeepsBindings and KeepsRows say what the use case relies on of its repositories.
--
-- Not modelled: logging and contexts, the construction of the HTTP and gRPC servers, flags, and generated
-- code.
pub mod Prelude
pub mod Go
pub mod Biz
pub mod Service
pub mod Mq
pub mod Data
pub mod Exec
pub mod Startup
pub mod Tests
